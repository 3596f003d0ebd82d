-- ===== src/Base/Outcome.antt =====
-- The outcome of running C code: a value, a memory fault, or a loop that is still running when
-- its rounds are used up.
pub data Run {ℓ} (A : Type ℓ) : Type ℓ where
  ok : A → Run A
  fault : Run A
  hang : Run A

infixl 5 ◌>>=◌
abbrev pub ◌>>=◌ {ℓ κ} : {A : Type ℓ} {B : Type κ} → Run A → (A → Run B) → Run B
ok a >>= f = f a
fault >>= f = fault
hang >>= f = hang
