-- ===== src/Prelude/Sublists.antt =====
-- Sublists of lists that are put together or cut.
use Prim.Native.Nat.{ℕ, zero, suc, ◌≤◌}
use mathlib.Core.Path.{◌≡◌, refl, ap}
use mathlib.Core.List.{List, [], ◌∷◌, ◌++◌, Sublistᴰ}
use mathlib.Core.List.Sublistᴰ
use native.Mathlib.Omega.{arith}
use ssh_server_go.Prelude.Lists.{take, length}

module _ {ℓ} {A : Type ℓ} where
  pub append-Sublistᴰ :
      (zs : List A) {xs ys : List A} → Sublistᴰ xs ys → Sublistᴰ (zs ++ xs) (zs ++ ys)
  append-Sublistᴰ [] h = h
  append-Sublistᴰ (z ∷ zs) h = Sublistᴰ.cons-cons refl (append-Sublistᴰ zs h)

  pub Sublistᴰ-append :
      {xs ys : List A} (zs : List A) → Sublistᴰ xs ys → Sublistᴰ (xs ++ zs) (ys ++ zs)
  Sublistᴰ-append zs Sublistᴰ.slnil = Sublistᴰ.refl zs
  Sublistᴰ-append zs (Sublistᴰ.cons h) = Sublistᴰ.cons (Sublistᴰ-append zs h)
  Sublistᴰ-append zs (Sublistᴰ.cons-cons p h) = Sublistᴰ.cons-cons p (Sublistᴰ-append zs h)

  pub take-Sublistᴰ : (n : ℕ) (xs : List A) → Sublistᴰ (take n xs) xs
  take-Sublistᴰ zero xs = Sublistᴰ.nil-sublist xs
  take-Sublistᴰ (suc n) [] = Sublistᴰ.slnil
  take-Sublistᴰ (suc n) (x ∷ xs) = Sublistᴰ.cons-cons refl (take-Sublistᴰ n xs)

  pub skip-Sublistᴰ : (zs xs : List A) → Sublistᴰ xs (zs ++ xs)
  skip-Sublistᴰ [] xs = Sublistᴰ.refl xs
  skip-Sublistᴰ (z ∷ zs) xs = Sublistᴰ.cons (skip-Sublistᴰ zs xs)

  pub Sublistᴰ-skip : (xs zs : List A) → Sublistᴰ xs (xs ++ zs)
  Sublistᴰ-skip [] zs = Sublistᴰ.nil-sublist zs
  Sublistᴰ-skip (x ∷ xs) zs = Sublistᴰ.cons-cons refl (Sublistᴰ-skip xs zs)

  pub take_all : (n : ℕ) (xs : List A) → length xs ≤ n → take n xs ≡ xs
  take_all zero [] h = refl
  take_all zero (x ∷ xs) h = ground arith
  take_all (suc n) [] h = refl
  take_all (suc n) (x ∷ xs) h = ap (◌∷◌ x) (take_all n xs (omega (arith, h)))
