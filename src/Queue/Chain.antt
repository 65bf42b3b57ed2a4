-- ===== src/Queue/Chain.antt =====
-- Chains of entries in the heap, and the lists of distinct addresses behind them.
use jrpc.Base.{
  ℕ, ◌+◌, ◌<◌, ◌≡◌, refl, Option, none, some, Bool, true, false, ◌||◌, List, [], ◌∷◌, ◌++◌, nat_eq,
  arith, All, ap,
}
use jrpc.Queue.{Entry, write}

abbrev pub has : ℕ → List ℕ → Bool
has a [] = false
has a (b ∷ bs) = nat_eq a b || has a bs

abbrev pub Distinct : List ℕ → Type 0
Distinct [] = Unit
Distinct (a ∷ ls) = (has a ls ≡ false) × Distinct ls

abbrev pub last : ℕ → List ℕ → ℕ
last f [] = f
last f (a ∷ ls) = last a ls

pub has-append : (a : ℕ) (xs ys : List ℕ) → has a (xs ++ ys) ≡ (has a xs || has a ys)
has-append a [] ys = refl
has-append a (x ∷ xs) ys = ground (arith, has-append a xs ys)

-- One address moves over the others.
pub Distinct-middle :
    (xs : List ℕ) (y : ℕ) (ys : List ℕ) → Distinct (xs ++ y ∷ ys) → Distinct (y ∷ (xs ++ ys))
Distinct-middle [] y ys h = h
Distinct-middle (x ∷ xs) y ys h =
    ground (arith, Distinct-middle xs y ys, has-append x xs (y ∷ ys), has-append x xs ys)

pub middle-Distinct :
    (xs : List ℕ) (y : ℕ) (ys : List ℕ) → Distinct (y ∷ (xs ++ ys)) → Distinct (xs ++ y ∷ ys)
middle-Distinct [] y ys h = h
middle-Distinct (x ∷ xs) y ys h =
    ground (arith, middle-Distinct xs y ys, has-append x xs (y ∷ ys), has-append x xs ys)

pub Distinct-apart :
    (xs ys : List ℕ) (b : ℕ) → Distinct (xs ++ ys) → has b xs ≡ true → has b ys ≡ false
Distinct-apart [] ys b d h = ground arith
Distinct-apart (x ∷ xs) ys b d h = ground (arith, Distinct-apart xs ys b, has-append x xs ys)

pub Distinct-left : (xs ys : List ℕ) → Distinct (xs ++ ys) → Distinct xs
Distinct-left [] ys h = tt
Distinct-left (x ∷ xs) ys h = ground (arith, Distinct-left xs ys, has-append x xs ys)

pub Distinct-right : (xs ys : List ℕ) → Distinct (xs ++ ys) → Distinct ys
Distinct-right [] ys h = h
Distinct-right (x ∷ xs) ys h = Distinct-right xs ys h.1

pub All-right : (n : ℕ) (xs ys : List ℕ) → All (λ a. a < n) (xs ++ ys) → All (λ a. a < n) ys
All-right n [] ys h = h
All-right n (x ∷ xs) ys h = All-right n xs ys h.1

pub has-last : (f : ℕ) (ls : List ℕ) → has (last f ls) (f ∷ ls) ≡ true
has-last f [] = ground arith
has-last f (a ∷ ls) = ground (arith, has-last a ls)

pub last-append : (f : ℕ) (ls : List ℕ) (e : ℕ) → last f (ls ++ e ∷ []) ≡ e
last-append f [] e = refl
last-append f (a ∷ ls) e = last-append a ls e

-- Addresses below a bound.
pub not-has_of_bound : (n : ℕ) (ls : List ℕ) → All (λ a. a < n) ls → has n ls ≡ false
not-has_of_bound n [] h = refl
not-has_of_bound n (a ∷ ls) h = ground (arith, not-has_of_bound n ls)

pub All-suc : (n : ℕ) (ls : List ℕ) → All (λ a. a < n) ls → All (λ a. a < n + 1) ls
All-suc n [] h = tt
All-suc n (a ∷ ls) h = ground (arith, All-suc n ls)

pub All-middle :
    (n y : ℕ) (xs ys : List ℕ)
    → y < n
    → All (λ a. a < n) (xs ++ ys)
    → All (λ a. a < n) (xs ++ y ∷ ys)
All-middle n y [] ys h k = (h, k)
All-middle n y (x ∷ xs) ys h k = ground (arith, All-middle n y xs ys)

module _ {A : Type 0} where
  -- From the pointer `p` the links lead through the addresses `ls` to nil.
  abbrev pub Chain : (ℕ → Entry A) → Option ℕ → List ℕ → Type 0
  Chain h p [] = p ≡ none
  Chain h p (a ∷ ls) = (p ≡ some a) × Chain h (h a).link ls

  abbrev pub contents : (ℕ → Entry A) → List ℕ → List (List A)
  contents h [] = []
  contents h (a ∷ ls) = (h a).content ∷ contents h ls

  -- A write at another address changes neither a chain nor its contents.
  pub Chain-write :
      (h : ℕ → Entry A) (p : Option ℕ) (ls : List ℕ) (b : ℕ) (e : Entry A)
      → has b ls ≡ false
      → Chain h p ls
      → Chain (write h b e) p ls
  unfolding write
  Chain-write h p [] b e out c = c
  Chain-write h p (a ∷ ls) b e out c = ground (arith, Chain-write h (h a).link ls b e)

  pub contents-write :
      (h : ℕ → Entry A) (ls : List ℕ) (b : ℕ) (e : Entry A)
      → has b ls ≡ false
      → contents (write h b e) ls ≡ contents h ls
  unfolding write
  contents-write h [] b e out = refl
  contents-write h (a ∷ ls) b e out = ground (arith, contents-write h ls b e)

  -- A write that keeps an entry's content changes no contents.
  pub contents-relink :
      (h : ℕ → Entry A) (ls : List ℕ) (b : ℕ) (l : Option ℕ)
      → contents (write h b (record (h b) { link = l })) ls ≡ contents h ls
  unfolding write
  contents-relink h [] b l = refl
  contents-relink h (a ∷ ls) b l = ground (arith, contents-relink h ls b l)

  -- A new entry behind the last one.
  pub Chain-snoc :
      (h : ℕ → Entry A) (f : ℕ) (ls : List ℕ) (e : ℕ)
      → Distinct (f ∷ ls)
      → has e (f ∷ ls) ≡ false
      → (h e).link ≡ none
      → Chain h (h f).link ls
      → let b = last f ls in
        let h' = write h b (record (h b) { link = some e }) in Chain h' (h' f).link (ls ++ e ∷ [])
  unfolding write
  Chain-snoc h f [] e d out end c = ground arith
  Chain-snoc h f (a ∷ ls) e d out end c = ground (arith, Chain-snoc h a ls e, has-last a ls)

  pub contents-append :
      (h : ℕ → Entry A) (ls bs : List ℕ) → contents h (ls ++ bs) ≡ contents h ls ++ contents h bs
  contents-append h [] bs = refl
  contents-append h (a ∷ ls) bs = ap (◌∷◌ (h a).content) (contents-append h ls bs)
