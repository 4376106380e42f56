-- ===== src/Withdrawal/Status.antt =====
-- `classifyDkStatus` (src/payment/dk-status.util.ts). A text is the list of its characters'
-- codes, and `toUpperCase` is a parameter.
use Prim.Native.Char.{code}
use Prim.Native.String.{String}
use oro_backend.Base.{
  ℕ, Bool, true, false, ◌==◌, ◌&&◌, ◌||◌, Option, List, [], ◌∷◌, get_or, exists_in, if◌then◌else◌,
}
use oro_backend.Withdrawal.Tables.{Verdict}

abbrev pub codes : String → List ℕ
codes String.[] = []
codes (String.◌∷◌ c s) = code c ∷ codes s

unfoldable pub starts_with : List ℕ → List ℕ → Bool
starts_with s [] = true
starts_with [] (p ∷ ps) = false
starts_with (c ∷ s) (p ∷ ps) = let rest = starts_with s ps in c == p && rest

-- `s.includes(m)`.
unfoldable pub includes_text : List ℕ → List ℕ → Bool
unfolding starts_with
includes_text [] m = starts_with [] m
includes_text (c ∷ s) m = let rest = includes_text s m in starts_with (c ∷ s) m || rest

abbrev pub failure_markers : List (List ℕ)
failure_markers =
    codes "FAIL"
    ∷ codes "UNSUCCESS"
    ∷ codes "NOT SUCCESS"
    ∷ codes "REJECT"
    ∷ codes "DECLINE"
    ∷ codes "REVERSED"
    ∷ codes "CANCEL"
    ∷ []

unfoldable pub classify_dk_status : (List ℕ → List ℕ) → Option (List ℕ) → Verdict
classify_dk_status to_upper status =
    let s = to_upper (get_or status []) in
    if exists_in (λ m. includes_text s m) failure_markers
    then Verdict.failed
    else if includes_text s (codes "SUCCESS")
    then Verdict.success
    else Verdict.pending
