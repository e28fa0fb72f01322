-- ===== src/Store/Idempotency/Again.antt =====
-- `submit` of packages/db/src/threads/submission.ts, called again with the same request.
use cloud_swe.Base.{
  ℕ, Option-cases, inl, inr, ◌≡◌, refl, subst, true, false, is_some, Option, none, some, List, map,
  select, arith, ok, ◌>>=◌, find, ==-refl, same_numbers_refl,
}
use cloud_swe.Base.Keeps.{>>=-eq-ok}
use cloud_swe.Store.Schema.{Db, RequestKind, Attachment, DeliveryMode}
use cloud_swe.Store.Shared.{thread_is, owned_thread}
use cloud_swe.Store.Queue.{delivery_of}
use cloud_swe.Store.Submit.{
  Catalog, SubmitInput, SubmitResult, Prior, kind_of, same_kind, same_mode, bound_to, by_ordinal,
  run_of, find_prior, is_other_request, replay_request, check_request, accept_request, other_thread,
  other_repository, is_unsupported, is_foreign, submit_found, submit,
}
use cloud_swe.Store.History.{Call, history}
use cloud_swe.Store.Steps.Calls.{history-Keeps}
use cloud_swe.Store.Idempotency.Homes.{owned-there}
use cloud_swe.Store.Idempotency.Ids.{IdsGiven}
use cloud_swe.Store.Idempotency.Memory.{Request, Remembered}
use cloud_swe.Store.Idempotency.Survival.{Survives-Writes}
use cloud_swe.Store.Idempotency.Accepted.{Accepts, Stands, accept_request-Stands}

same_mode_refl : (o : Option DeliveryMode) → same_mode o o ≡ true
same_mode_refl none = refl
same_mode_refl (some DeliveryMode.steer) = refl
same_mode_refl (some DeliveryMode.queue) = refl

same_kind_refl : (k : RequestKind) → same_kind k k ≡ true
same_kind_refl RequestKind.initial = refl
same_kind_refl RequestKind.followup = refl

prior_of : (q : Request) (e : Db) → Remembered q e → Prior
prior_of q e k = record {
  message = k.message.message;
  delivery = some k.delivery.delivery;
  run = run_of k.message.message.run_id e.runs;
  thread = k.thread.thread;
  bound_ids =
      map (λ (a : Attachment). a.id)
        (by_ordinal (select (bound_to k.message.message.id) e.attachments));
}

find_prior-again :
    (q : Request) (e : Db) (k : Remembered q e)
    → q.note.thread_id ≡ q.home.id
    → find_prior q.user q.client e ≡ some (prior_of q e k)
unfolding find_prior prior_of
find_prior-again q e k its =
    let there : find (thread_is k.message.message.thread_id) e.threads ≡ some k.thread.thread =
      rw (k.message.same.thread_id, its) k.thread.found in
    let delivered : find (delivery_of k.message.message.id) e.deliveries
        ≡ some k.delivery.delivery =
      rw k.message.same.id k.delivery.found in
    ground (arith, k.message.found)

module _ (input : SubmitInput) (requested : Option ℕ) (s : ℕ) (o : DeliveryMode) where
  same_repository :
      (q : Request) (e : Db) (k : Remembered q e)
      → other_repository requested input q.home ≡ false
      → other_repository requested input k.thread.thread ≡ false
  same_repository q e k h = go requested h
    where
      go :
          (t : Option ℕ)
          → other_repository t input q.home ≡ false
          → other_repository t input k.thread.thread ≡ false
      go none m = rw (k.thread.same.url, k.thread.same.branch) m
      go (some t) m = refl

  same_request :
      (q : Request) (r : SubmitResult) (e : Db) (a : Accepts input requested s o q r)
      (k : Remembered q e)
      → input.mode ≡ some o
      → input.model_selection ≡ some s
      → is_other_request input requested (prior_of q e k) ≡ false
  unfolding is_other_request prior_of
  same_request q r e a k moded chosen =
      let x = k.delivery.same in
      let m = k.message.same in
      let repository = same_repository q e k a.matches in
      let mine = a.mine in
      ground (
        arith,
        a.its_row,
        a.its_thread,
        a.its_kind,
        m.thread_id,
        m.kind,
        x.selection,
        x.prompt,
        x.mode,
        x.attachments,
        moded,
        chosen,
        same_mode_refl (some o),
        same_kind_refl (kind_of requested),
        ==-refl s,
        same_numbers_refl input.prompt,
        same_numbers_refl input.attachment_ids,
      )

  submit-Stands :
      (catalog : Catalog) (q : Request) (r : SubmitResult) (e : Db)
      → Accepts input requested s o q r
      → Remembered q e
      → input.mode ≡ some o
      → input.model_selection ≡ some s
      → is_unsupported catalog input.model_selection ≡ false
      → is_foreign input requested e ≡ false
      → submit catalog input requested e ≡ ok (r, e)
  unfolding submit submit_found replay_request prior_of ◌>>=◌
  submit-Stands catalog q r e a k moded chosen known allowed = ground (
    arith,
    find_prior-again q e k a.its_thread,
    a.its_user,
    a.its_client,
    same_request q r e a k moded chosen,
    a.is,
    a.its_row,
    a.its_thread,
    k.message.same.id,
    k.message.same.thread_id,
    k.delivery.same.target,
    k.delivery.same.waits,
  )

check_request-selects :
    (c : Catalog) (x : SubmitInput) (t : Option ℕ) (d : Db) (rows : List Attachment) (e : Db)
    (o : DeliveryMode)
    → x.mode ≡ some o
    → x.model_selection ≡ none
    → check_request c x t d ≡ ok (rows, e)
    → ⊥
unfolding check_request ◌>>=◌
check_request-selects c x t d rows e o moded nothing h = ground arith

accept_request-selects :
    (c : Catalog) (x : SubmitInput) (t : Option ℕ) (d : Db) (r : SubmitResult) (e : Db)
    (o : DeliveryMode)
    → x.mode ≡ some o
    → accept_request c x t d ≡ ok (r, e)
    → (s : ℕ) × (x.model_selection ≡ some s)
unfolding accept_request
accept_request-selects c x t d r e o moded h = elim (Option-cases x.model_selection) [
  | inl nothing ↦
      (let (rows, b, first, rest) = >>=-eq-ok (check_request c x t) _ d h in
        absurd (check_request-selects c x t d rows b o moded nothing first))
  | inr chosen ↦ chosen
]

-- What a request that was accepted leaves, with the model that it chose.
accepted-Stands :
    (catalog : Catalog) (input : SubmitInput) (requested : Option ℕ) (o : DeliveryMode) (d : Db)
    (r : SubmitResult) (d' : Db)
    → IdsGiven d
    → input.mode ≡ some o
    → find_prior input.user_id input.client_message_id d ≡ none
    → submit catalog input requested d ≡ ok (r, d')
    → (s : ℕ) × (input.model_selection ≡ some s) × Stands input requested s o r d'
unfolding submit submit_found ◌>>=◌
accepted-Stands catalog input requested o d r d' given moded new h =
    let accepted : accept_request catalog input requested d ≡ ok (r, d') = ground arith in
    let (s, chosen) = accept_request-selects catalog input requested d r d' o moded accepted in
    (
      s,
      chosen,
      (accept_request-Stands input requested s o catalog d given (ground arith) moded chosen).at d r
          d' refl accepted,
    )

supported :
    (catalog : Catalog) (input : SubmitInput) (requested : Option ℕ) (d : Db) (r : SubmitResult)
    (d' : Db)
    → submit catalog input requested d ≡ ok (r, d')
    → (is_unsupported catalog input.model_selection ≡ false)
      × (is_foreign input requested d ≡ false)
unfolding submit ◌>>=◌
supported catalog input requested d r d' h = (ground arith, ground arith)

not_foreign :
    (input : SubmitInput) (requested : Option ℕ) (e : Db) (i home : ℕ)
    → other_thread requested home ≡ false
    → i ≡ home
    → is_some (find (owned_thread i input.user_id) e.threads) ≡ true
    → is_foreign input requested e ≡ false
not_foreign input none e i home mine same owned = refl
not_foreign input (some t) e i home mine same owned =
    let named : i ≡ t = ground arith in
    let still =
      subst (λ k. is_some (find (owned_thread k input.user_id) e.threads) ≡ true) named owned in
    rw still

-- Where every id in use was given before: a request with a mode that was accepted as a new one, sent
-- again after any history of calls, is answered the same and writes nothing, as long as its thread is
-- still there and the user's.
pub history-answers :
    (catalog : Catalog) (input : SubmitInput) (requested : Option ℕ) (o : DeliveryMode) (d : Db)
    (r : SubmitResult) (d' : Db) (cs : List Call)
    → IdsGiven d
    → input.mode ≡ some o
    → find_prior input.user_id input.client_message_id d ≡ none
    → submit catalog input requested d ≡ ok (r, d')
    → is_some (find (owned_thread r.thread_id input.user_id) (history d' cs).threads) ≡ true
    → submit catalog input requested (history d' cs) ≡ ok (r, history d' cs)
history-answers catalog input requested o d r d' cs given moded new h owned =
    let (s, chosen, k) = accepted-Stands catalog input requested o d r d' given moded new h in
    let a = k.accepts in
    let (t, there) = owned-there r.thread_id input.user_id (history d' cs).threads owned in
    let home : r.thread_id ≡ k.request.home.id = ground (arith, a.is) in
    elim (history-Keeps (Survives-Writes k.request a.its_thread) d' cs (inl k.rows)) [
      | inr g ↦ absurd (ground (arith, g.gone))
      | inl rows ↦
          submit-Stands input requested s o catalog k.request r (history d' cs) a rows moded chosen
            (supported catalog input requested d r d' h).0
            (not_foreign input requested (history d' cs) r.thread_id k.request.home.id a.mine home
              owned)
    ]
