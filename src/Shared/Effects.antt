-- ===== src/Shared/Effects.antt =====
-- Handlers that change the state and may fail. What was written before a failure stays written, so
-- the state comes back beside the error too.

pub data Result {ℓ} (E A : Type ℓ) : Type ℓ where
  ok : A → Result E A
  err : E → Result E A

abbrev pub Exec {ℓ} : Type ℓ → Type ℓ → Type ℓ → Type ℓ
Exec S E A = S → Result E A × S

module _ {ℓ} {S E A : Type ℓ} where
  abbrev pub pure : A → Exec S E A
  pure a s = (ok a, s)

  abbrev pub fail : E → Exec S E A
  fail e s = (err e, s)

  abbrev pub gets : (S → A) → Exec S E A
  gets f s = (ok (f s), s)

  abbrev pub lift : Result E A → Exec S E A
  lift r s = (r, s)

  -- `let _ = …`: the failure is dropped, the state is kept.
  abbrev pub ignore : Exec S E A → Exec S E (Unit {ℓ})
  ignore m s = (ok tt, (m s).1)

module _ {ℓ} {S E : Type ℓ} where
  abbrev pub modify : (S → S) → Exec S E (Unit {ℓ})
  modify f s = (ok tt, f s)

module _ {ℓ} {S E A B : Type ℓ} where
  abbrev pub continue : Result E A → (A → Exec S E B) → Exec S E B
  continue (ok a) f s = f a s
  continue (err e) f s = (err e, s)

  infixl 5 ◌>>=◌ ◌>>◌
  abbrev pub ◌>>=◌ : Exec S E A → (A → Exec S E B) → Exec S E B
  ◌>>=◌ m f s = let (r, s') = m s in continue r f s'

  abbrev pub ◌>>◌ : Exec S E A → Exec S E B → Exec S E B
  m >> n = m >>= λ _. n

abbrev convert {ℓ} : {E D A : Type ℓ} → (E → D) → Result E A → Result D A
convert f (ok a) = ok a
convert f (err e) = err (f e)

module _ {ℓ} {S E D A : Type ℓ} where
  -- `map_err`, and the conversion of errors by `?`
  abbrev pub map_err : (E → D) → Exec S E A → Exec S D A
  map_err f m s = let (r, s') = m s in (convert f r, s')
