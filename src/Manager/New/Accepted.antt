-- ===== src/Manager/New/Accepted.antt =====
-- Checks that pass.
use gotasks.Manager.New.{accept, reject, ◌>>=◌, Checked}
use gotasks.Prelude.{ap, ◌≡◌, refl}

pub >>=-accept {ℓ κ} :
    {A : Type ℓ} {B : Type κ} (m : Checked A) (f : A → Checked B) {b : B}
    → (m >>= f) ≡ accept b
    → (a : A) × (m ≡ accept a) × (f a ≡ accept b)
>>=-accept (accept a) f h = (a, refl, h)
>>=-accept (reject e) f h = absurd (cc)

or_reject {ℓ} : {A : Type ℓ} → A → Checked A → A
or_reject d (accept a) = a
or_reject d (reject e) = d

pub accept-injective {ℓ} : {A : Type ℓ} {a b : A} → accept a ≡ accept b → a ≡ b
unfolding or_reject
accept-injective {a} h = ap (or_reject a) h
