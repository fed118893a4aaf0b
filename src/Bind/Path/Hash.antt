-- ===== src/Bind/Path/Hash.antt =====
-- The hash of paths that the search of limestone/dbms_bind.c fills, and how many binds it has not seen.
use limestone.Prelude.{
  ℕ, ◌+◌, ◌≤◌, ◌<◌, ◌≡◌, refl, ap, inl, inr, Bool, true, false, ◌||◌, Option, none, some, List, [],
  ◌∷◌, ◌++◌, Bytes, ◌==◌, In, if◌then◌else◌, arith,
}
use limestone.Store.{Bind}
use limestone.Bind.Path.{is_in, Hash, hash_get}

-- Whether the hash has the key.
abbrev pub present : {A : Type 0} → Option A → Bool
present none = false
present (some a) = true

unfoldable pub has : ℕ → Hash → Bool
unfolding hash_get
has k h = present (hash_get k h)

pub is_in-append : (k : ℕ) (xs ys : List ℕ) → is_in (xs ++ ys) k ≡ (is_in xs k || is_in ys k)
unfolding is_in
is_in-append k [] ys = refl
is_in-append k (x ∷ xs) ys = ground (arith, is_in-append k xs ys)

-- The binds whose collection is not in the hash.
abbrev pub unseen : List Bind → Hash → ℕ
unseen [] h = 0
unseen (b ∷ bs) h = if has b.collection_id h then unseen bs h else unseen bs h + 1

pub has-cons : (k j : ℕ) (p : Bytes) (h : Hash) → has k ((j, p) ∷ h) ≡ ((j == k) || has k h)
unfolding has hash_get
has-cons k j p h = ground arith

pub unseen-cons-le :
    (j : ℕ) (p : Bytes) (h : Hash) (bs : List Bind) → unseen bs ((j, p) ∷ h) ≤ unseen bs h
unseen-cons-le j p h [] = omega arith
unseen-cons-le j p h (b ∷ bs) =
    ground (arith, has-cons b.collection_id j p h, unseen-cons-le j p h bs)

pub unseen-cons-lt :
    (b : Bind) (p : Bytes) (h : Hash) (bs : List Bind)
    → In b bs
    → has b.collection_id h ≡ false
    → unseen bs ((b.collection_id, p) ∷ h) < unseen bs h
unseen-cons-lt b p h [] m new = elim m [ ]
unseen-cons-lt b p h (c ∷ bs) (inl e) new = ground (
  arith,
  has-cons c.collection_id b.collection_id p h,
  unseen-cons-le b.collection_id p h bs,
  ap (λ (x : Bind). x.collection_id) e,
)
unseen-cons-lt b p h (c ∷ bs) (inr m) new =
    ground (arith, has-cons c.collection_id b.collection_id p h, unseen-cons-lt b p h bs m new)
