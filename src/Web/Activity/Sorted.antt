-- ===== src/Web/Activity/Sorted.antt =====
-- The list of the activities page against the payments of the requests, and the notifications of
-- two wallets.
use mathlib.Core.List.{Perm}
use mathlib.Core.List.Perm.{refl as Perm_refl}
use skaus.Prelude.{◌≡◌, refl, String, Bool, true, false, List, [], ◌∷◌, str_eq}
use skaus.Web.Activity.{Amounts, RequestData, revenue_from}

module _ {ℓ} {A : Type ℓ} (le : A → A → Bool) where
  -- Each element may stand before the next.
  pub data Ordered : List A → Type ℓ where
    none_left : Ordered []
    one : (a : A) → Ordered (a ∷ [])
    before : {a b : A} {cs : List A} → le a b ≡ true → Ordered (b ∷ cs) → Ordered (a ∷ b ∷ cs)

module _ (m : Amounts) where
  open m use {Number, nought, at_most}

  -- The sum of a row, begun at the sum of the rows before it.
  unfoldable pub running_total : Number → List (RequestData Number) → Number
  running_total s [] = s
  running_total s (r ∷ rs) = running_total (revenue_from m s r.payments) rs

module _ {N : Type 0} where
  -- No request of the list has the id.
  unfoldable pub Unlisted : String → List (RequestData N) → Type 0
  Unlisted id [] = Unit
  Unlisted id (r ∷ rs) = (str_eq r.id id ≡ false) × Unlisted id rs
