-- ===== src/Act.antt =====
-- Code that changes a state and may fail: what was written before the failure stays written, so
-- the state comes back beside the error too.
use perplexity_proxy_go.Errors.{Failure, Result, ok, err}

abbrev pub Act {ℓ} : Type ℓ → Type ℓ → Type ℓ
Act S A = S → Result A × S

module _ {ℓ} {S A : Type ℓ} where
  abbrev pub pure : A → Act S A
  pure a s = (ok a, s)

  abbrev pub fail : Failure → Act S A
  fail e s = (err e, s)

  abbrev pub lift : Result A → Act S A
  lift r s = (r, s)

module _ {ℓ} {S A B : Type ℓ} where
  abbrev pub next : Result A × S → (A → Act S B) → Result B × S
  next (ok a, s) f = f a s
  next (err e, s) f = (err e, s)

  infixl 5 ◌>>=◌ ◌>>◌
  abbrev pub ◌>>=◌ : Act S A → (A → Act S B) → Act S B
  ◌>>=◌ m f s = next (m s) f

  abbrev pub ◌>>◌ : Act S A → Act S B → Act S B
  ◌>>◌ m k = m >>= λ _. k

-- the error of a failed result, changed
abbrev pub wrap_result {ℓ} : {A : Type ℓ} → Result A → (Failure → Failure) → Result A
wrap_result (ok a) f = ok a
wrap_result (err e) f = err (f e)

module _ {ℓ} {S A : Type ℓ} where
  -- `if err != nil { return fmt.Errorf("<before>%w", err) }`
  abbrev pub on_error : (Failure → Failure) → Act S A → Act S A
  on_error f m s = (wrap_result (m s).0 f, (m s).1)
