-- ===== src/Shared/Results.antt =====
-- `Result<A, String>`, and `?` on it.
use mathlib.Core.Path.{◌≡◌, refl, ap}
use term_connect.Shared.Text.{Text}

pub data Result {ℓ} (A : Type ℓ) : Type ℓ where
  ok : A → Result A
  err : Text → Result A

unfoldable pub bind {ℓ κ} : {A : Type ℓ} {B : Type κ} → Result A → (A → Result B) → Result B
bind (ok a) f = f a
bind (err e) f = err e

-- What a chain went through when it succeeds.
pub bind-ok :
    {A B : Type 0} (r : Result A) (f : A → Result B) (b : B)
    → bind r f ≡ ok b
    → (a : A) × ((r ≡ ok a) × (f a ≡ ok b))
unfolding bind
bind-ok (ok a) f b e = (a, (refl, e))
bind-ok (err t) f b e = cc

from_ok : {A : Type 0} → A → Result A → A
from_ok a (ok b) = b
from_ok a (err e) = a

pub ok-injective : {A : Type 0} {a b : A} → ok a ≡ ok b → a ≡ b
unfolding from_ok
ok-injective {A} {a} e = ap (from_ok a) e

pub err_is_no_ok : {A : Type 0} {t : Text} {a : A} → err t ≡ ok a → ⊥
err_is_no_ok e = cc
