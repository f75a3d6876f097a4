-- ===== src/Value/Do.antt =====
-- `Result` as a monad: a call that raises ends the function that makes it.
use spaceport.Base.{Bool, true, false, ◌≡◌, refl}
use spaceport.Value.{Result, ok, err, Exn}

infixl 5 ◌>>=◌
infixl 5 ◌>>◌
-- `if b: raise e`
abbrev pub raise_if : Bool → Exn → Result (Unit {0})
raise_if b e = elim b [ true ↦ err e | false ↦ ok tt ]

-- What follows a call is skipped when the call raises.
abbrev pub ◌>>=◌ {ℓa ℓb} : {X : Type ℓa} {Y : Type ℓb} → Result X → (X → Result Y) → Result Y
(err raised) >>= after = err raised
(ok value) >>= after = after value

-- The same after a call with no value of its own.
abbrev pub ◌>>◌ {ℓb} : {Y : Type ℓb} → Result (Unit {0}) → Result Y → Result Y
(err raised) >> after = err raised
(ok _) >> after = after

-- A call that returned did so by a call that returned.
pub bind_ok {ℓ κ} :
    {A : Type ℓ} {B : Type κ} (m : Result A) (f : A → Result B) (b : B)
    → (m >>= f) ≡ ok b
    → (a : A) × ((m ≡ ok a) × (f a ≡ ok b))
bind_ok (ok a) f b h = (a, (refl, h))
bind_ok (err e) f b h = cc

pub raise_if_ok {ℓ} :
    {B : Type ℓ} (b : Bool) (e : Exn) (m : Result B) (r : B)
    → (raise_if b e >> m) ≡ ok r
    → (b ≡ false) × (m ≡ ok r)
raise_if_ok true e m r h = cc
raise_if_ok false e m r h = (refl, h)
