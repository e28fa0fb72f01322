-- ===== src/Store/Idempotency/Reading.antt =====
-- The checks of `submit` only read.
use cloud_swe.Base.{ℕ, ◌≡◌, refl, ◌∙◌, Option, none, some, ◌>>=◌, arith}
use cloud_swe.Base.Keeps.{IsPreorder, Keeps, keeps_rules}
use cloud_swe.Base.Triples.{Gives, Gives-pure}
use cloud_swe.Store.Schema.{Db, Run}
use cloud_swe.Store.Submit.{
  Catalog, SubmitInput, Prior, replay_request, validate_attachments, check_request, check_active,
  ensure_admission,
}

-- What does not write.
abbrev pub Reads : Db → Db → Type 0
Reads d e = e ≡ d

Reads-preorder : IsPreorder Reads
Reads-preorder = record { same = λ d. refl; next = λ d e f p q. q ∙ p }

ruleset read_rules = (keeps_rules, Reads-preorder)

validate_attachments-Reads :
    (c : Catalog) (x : SubmitInput) (t : Option ℕ) → Keeps Reads (validate_attachments c x t)
unfolding validate_attachments
validate_attachments-Reads c x t = search read_rules depth 20

pub check_request-Reads :
    (c : Catalog) (x : SubmitInput) (t : Option ℕ) → Keeps Reads (check_request c x t)
unfolding check_request
check_request-Reads c x t = search (read_rules, validate_attachments-Reads) depth 20

pub check_active-Reads : (x : SubmitInput) (r : Option Run) → Keeps Reads (check_active x r)
unfolding check_active
check_active-Reads x none = search read_rules depth 20
check_active-Reads x (some r) = search read_rules depth 20

pub ensure_admission-Reads : (x : SubmitInput) (r : Option Run) → Keeps Reads (ensure_admission x r)
unfolding ensure_admission
ensure_admission-Reads x none = search read_rules depth 20
ensure_admission-Reads x (some r) = search read_rules depth 20

pub replay_request-Reads :
    (x : SubmitInput) (t : Option ℕ) (p : Prior) → Keeps Reads (replay_request x t p)
unfolding replay_request
replay_request-Reads x t p = search read_rules depth 20

-- The active run that the check hands on is the one that was found.
pub checked_active :
    (x : SubmitInput) (found : Option Run)
    → Gives (λ (d : Db). Unit {0}) (λ a _. a ≡ found) (check_active x found)
unfolding check_active ◌>>=◌
checked_active x none = Gives-pure none λ e k. refl
checked_active x (some r) = record { at = λ d a e k h. ground arith }
