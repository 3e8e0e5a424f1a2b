-- ===== src/EndPoint/Equality.antt =====
-- operator== of EndPoint: memcmp over the structure of the family.
use moe_uv.Base.{
  not, ◌||◌, ℕ, ◌^◌, ◌<◌, ◌≡◌, refl, true, ◌&&◌, List, [], ◌∷◌, ◌++◌, arith, ◌==◌, take, drop,
  replicate,
}
use moe_uv.EndPoint.{
  Families, Storage, same_bytes, equals, from_ipv4, htons, htonl, store_in, make_in,
}

same_bytes→eq : (xs ys : List ℕ) → same_bytes xs ys ≡ true → xs ≡ ys
unfolding same_bytes
same_bytes→eq [] [] h = refl
same_bytes→eq [] (y ∷ ys) h = cc
same_bytes→eq (x ∷ xs) [] h = cc
same_bytes→eq (x ∷ xs) (y ∷ ys) h = ground (arith, same_bytes→eq xs ys)

same_bytes_refl : (xs : List ℕ) → same_bytes xs xs ≡ true
unfolding same_bytes
same_bytes_refl [] = refl
same_bytes_refl (x ∷ xs) = ground (arith, same_bytes_refl xs)

same_bytes_comm : (xs ys : List ℕ) → same_bytes xs ys ≡ same_bytes ys xs
unfolding same_bytes
same_bytes_comm [] [] = refl
same_bytes_comm [] (y ∷ ys) = refl
same_bytes_comm (x ∷ xs) [] = refl
same_bytes_comm (x ∷ xs) (y ∷ ys) = ground (arith, same_bytes_comm xs ys)

same_bytes_trans :
    (xs ys zs : List ℕ)
    → same_bytes xs ys ≡ true
    → same_bytes ys zs ≡ true
    → same_bytes xs zs ≡ true
same_bytes_trans xs ys zs p q =
    rw (same_bytes→eq xs ys p, same_bytes→eq ys zs q) (same_bytes_refl zs)

same_htons :
    (p q : ℕ) (xs ys : List ℕ)
    → p < 2 ^ 16
    → q < 2 ^ 16
    → same_bytes (htons p ++ xs) (htons q ++ ys) ≡ (p == q && same_bytes xs ys)
unfolding same_bytes
same_htons p q xs ys hp hq = ground arith

same_htonl :
    (a b : ℕ) (xs ys : List ℕ)
    → a < 2 ^ 32
    → b < 2 ^ 32
    → same_bytes (htonl a ++ xs) (htonl b ++ ys) ≡ (a == b && same_bytes xs ys)
unfolding same_bytes
same_htonl a b xs ys ha hb = ground arith

module _ (os : Families) where
  -- operator== is reflexive and symmetric, for every family.
  pub equals_symm : (e f : Storage) → (equals os e e ≡ true) × (equals os e f ≡ equals os f e)
  unfolding equals
  equals_symm e f = (
    ground (
      arith,
      same_bytes_refl (take 14 e.bytes),
      same_bytes_refl (take 26 e.bytes),
      same_bytes_refl e.bytes,
    ),
    ground (
      arith,
      same_bytes_comm (take 14 e.bytes) (take 14 f.bytes),
      same_bytes_comm (take 26 e.bytes) (take 26 f.bytes),
      same_bytes_comm e.bytes f.bytes,
    ),
  )

  -- operator== is transitive.
  pub equals_trans :
      (e f g : Storage) → equals os e f ≡ true → equals os f g ≡ true → equals os e g ≡ true
  unfolding equals
  equals_trans e f g p q = ground (
    arith,
    same_bytes_trans (take 14 e.bytes) (take 14 f.bytes) (take 14 g.bytes),
    same_bytes_trans (take 26 e.bytes) (take 26 f.bytes) (take 26 g.bytes),
    same_bytes_trans e.bytes f.bytes g.bytes,
  )

  -- operator== is reflexive, symmetric and transitive, for every family.
  pub equals_equivalence :
      (e f g : Storage)
      → (equals os e e ≡ true)
        × (equals os e f ≡ equals os f e)
        × ((not (equals os e f && equals os f g) || equals os e g) ≡ true)
  equals_equivalence e f g =
      ((equals_symm e e).0, (equals_symm e f).1, ground (arith, equals_trans e f g))

  -- End points made from IPv4 addresses and ports are equal exactly when both are equal, whatever the
  -- two storages held before.
  pub equals-from_ipv4 :
      (a b p q : ℕ) (raw other : Storage)
      → a < 2 ^ 32
      → b < 2 ^ 32
      → p < 2 ^ 16
      → q < 2 ^ 16
      → equals os (from_ipv4 os a p raw) (from_ipv4 os b q other) ≡ (a == b && p == q)
  unfolding equals from_ipv4 store_in make_in same_bytes
  equals-from_ipv4 a b p q raw other ha hb hp hq = ground (
    arith,
    same_htons p q (htonl a ++ zeros raw) (htonl b ++ zeros other) hp hq,
    same_htonl a b (zeros raw) (zeros other) ha hb,
    same_bytes_refl (replicate 8 0),
  )
    where
      zeros : Storage → List ℕ
      zeros e = take 8 (replicate 8 0 ++ drop 14 e.bytes)
