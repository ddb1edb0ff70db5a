-- ===== src/Store/Memory/Slices/Frame.antt =====
-- internal/store/memory.go: lemmas on writes to one slice among others.
use ticketbutler_proxy.Common.{
  ℕ, zero, suc, ◌+◌, ◌<◌, ◌≡◌, ◌≢◌, refl, sym, ap, Option, none, some, List, [], ◌∷◌, map, length,
  All, arith,
}
use mathlib.Core.Option
use mathlib.Core.Path.{ap₂, subst}
use ticketbutler_proxy.Errors.{Bytes}
use ticketbutler_proxy.Store.Memory.Slices.{make, copy, put, set, get_elem?}

pub copy-make : (xs : Bytes) → copy (make (length xs)) xs ≡ xs
unfolding copy make
copy-make [] = refl
copy-make (x ∷ xs) = ap (λ ys. x ∷ ys) (copy-make xs)

module _ (heap : ℕ → Bytes) (p : ℕ) (bytes : Bytes) where
  pub put_same : put heap p bytes p ≡ bytes
  unfolding put
  put_same = ground arith

  put_other : (q : ℕ) → p ≢ q → put heap p bytes q ≡ heap q
  unfolding put
  put_other q h = ground (arith, h)

  pub map-put : (qs : List ℕ) → All (λ q. p ≢ q) qs → map (put heap p bytes) qs ≡ map heap qs
  map-put [] h = refl
  map-put (q ∷ qs) (apart, h) = ap₂ (λ b bs. b ∷ bs) (put_other q apart) (map-put qs h)

abbrev pub All? : (ℕ → Type 0) → Option ℕ → Type 0
All? P none = Unit
All? P (some p) = P p

pub map?-put :
    (heap : ℕ → Bytes) (p : ℕ) (bytes : Bytes) (o : Option ℕ)
    → All? (λ q. p ≢ q) o
    → Option.map (put heap p bytes) o ≡ Option.map heap o
map?-put heap p bytes none h = refl
map?-put heap p bytes (some q) h = ap some (put_other heap p bytes q h)

-- No address stands twice in the list.
abbrev pub Distinct : List ℕ → Type 0
Distinct [] = Unit
Distinct (p ∷ ps) = All (λ q. p ≢ q) ps × Distinct ps

pub All-get_elem? :
    (P : ℕ → Type 0) (ps : List ℕ) (k p : ℕ) → All P ps → get_elem? ps k ≡ some p → P p
unfolding get_elem?
All-get_elem? P [] k p h e = cc
All-get_elem? P (q ∷ ps) zero p (h, hs) e = let same : q ≡ p = cc in subst P same h
All-get_elem? P (q ∷ ps) (suc k) p (h, hs) e = All-get_elem? P ps k p hs e

pub get_elem?-map :
    (f : ℕ → Bytes) (ps : List ℕ) (k : ℕ) → get_elem? (map f ps) k ≡ Option.map f (get_elem? ps k)
unfolding get_elem?
get_elem?-map f [] k = refl
get_elem?-map f (p ∷ ps) zero = refl
get_elem?-map f (p ∷ ps) (suc k) = get_elem?-map f ps k

-- A write to a slice that a caller has is a write to that value alone.
pub map-put_held :
    (heap : ℕ → Bytes) (bytes : Bytes) (ps : List ℕ) (k p : ℕ)
    → Distinct ps
    → get_elem? ps k ≡ some p
    → map (put heap p bytes) ps ≡ set (map heap ps) k bytes
unfolding get_elem? set
map-put_held heap bytes [] k p d e = cc
map-put_held heap bytes (q ∷ ps) zero p (apart, d) e =
    let same : q ≡ p = cc in
    subst (λ r. map (put heap r bytes) (q ∷ ps) ≡ bytes ∷ map heap ps) same
      (ap₂ (λ b bs. b ∷ bs) (put_same heap q bytes) (map-put heap q bytes ps apart))
map-put_held heap bytes (q ∷ ps) (suc k) p (apart, d) e =
    ap₂ (λ b bs. b ∷ bs)
      (put_other heap p bytes q (λ f. All-get_elem? (λ r. q ≢ r) ps k p apart e (sym f)))
      (map-put_held heap bytes ps k p d e)

pub All-lt-suc : (n : ℕ) (ps : List ℕ) → All (λ p. p < n) ps → All (λ p. p < n + 1) ps
All-lt-suc n [] h = tt
All-lt-suc n (p ∷ ps) (h, hs) = (omega arith, All-lt-suc n ps hs)

pub All?-lt-suc : (n : ℕ) (o : Option ℕ) → All? (λ p. p < n) o → All? (λ p. p < n + 1) o
All?-lt-suc n none h = tt
All?-lt-suc n (some p) h = omega arith

pub fresh : (n : ℕ) (ps : List ℕ) → All (λ p. p < n) ps → All (λ q. n ≢ q) ps
fresh n [] h = tt
fresh n (p ∷ ps) (h, hs) = (λ e. omega arith, fresh n ps hs)

pub fresh? : (n : ℕ) (o : Option ℕ) → All? (λ p. p < n) o → All? (λ q. n ≢ q) o
fresh? n none h = tt
fresh? n (some p) h = λ e. omega arith

pub private_fresh : (n : ℕ) (ps : List ℕ) → All (λ p. p < n) ps → All (λ p. p ≢ n) ps
private_fresh n [] h = tt
private_fresh n (p ∷ ps) (h, hs) = (λ e. omega arith, private_fresh n ps hs)
