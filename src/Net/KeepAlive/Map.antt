-- ===== src/Net/KeepAlive/Map.antt =====
-- The laws of the map from keys to vectors.
use cort_proto.Prelude.{ℕ, ◌<◌, ◌≤◌, ◌≡◌, refl, arith, [], ◌∷◌, none, some, if◌then◌else◌, ◌==◌}
use cort_proto.Net.KeepAlive.{Vec, ConnMap, find, set, erase}

-- Keys in order, each once, all above `low`.
abbrev pub Above : ℕ → ConnMap → Type 0
Above low [] = Unit
Above low ((j, d) ∷ m) = (low < j) × Above j m

abbrev pub IsSorted : ConnMap → Type 0
IsSorted [] = Unit
IsSorted ((j, d) ∷ m) = Above j m

tail-IsSorted : (j : ℕ) (m : ConnMap) → Above j m → IsSorted m
tail-IsSorted j [] s = tt
tail-IsSorted j ((i, d) ∷ m) (h, s) = s

pub find-Above : (k low : ℕ) (m : ConnMap) → Above low m → k ≤ low → find k m ≡ none
unfolding find
find-Above k low [] s h = refl
find-Above k low ((j, d) ∷ m) s h = ground (arith, find-Above k j m s.1)

pub find-set :
    (k q : ℕ) (dq : Vec) (m : ConnMap)
    → find q (set k dq m) ≡ (if k == q then some dq else find q m)
unfolding find set
find-set k q dq [] = refl
find-set k q dq ((j, d) ∷ m) = ground (arith, find-set k q dq m)

pub find-erase :
    (k q : ℕ) (m : ConnMap) → IsSorted m → find q (erase k m) ≡ (if k == q then none else find q m)
unfolding find erase
find-erase k q [] s = ground arith
find-erase k q ((j, d) ∷ m) s =
    ground (arith, find-erase k q m (tail-IsSorted j m s), find-Above q j m s)

Above-set : (low k : ℕ) (dq : Vec) (m : ConnMap) → low < k → Above low m → Above low (set k dq m)
unfolding set
Above-set low k dq [] h s = (h, tt)
Above-set low k dq ((j, d) ∷ m) h s = ground (arith, Above-set j k dq m)

pub set-IsSorted : (k : ℕ) (dq : Vec) (m : ConnMap) → IsSorted m → IsSorted (set k dq m)
unfolding set
set-IsSorted k dq [] s = tt
set-IsSorted k dq ((j, d) ∷ m) s = ground (arith, Above-set j k dq m)

pub Above-weaken : (low low' : ℕ) (m : ConnMap) → low ≤ low' → Above low' m → Above low m
Above-weaken low low' [] h s = tt
Above-weaken low low' ((j, d) ∷ m) h s = ground arith

Above-erase : (low k : ℕ) (m : ConnMap) → Above low m → Above low (erase k m)
unfolding erase
Above-erase low k [] s = tt
Above-erase low k ((j, d) ∷ m) s = ground (arith, Above-weaken low j m, Above-erase j k m)

pub erase-IsSorted : (k : ℕ) (m : ConnMap) → IsSorted m → IsSorted (erase k m)
unfolding erase
erase-IsSorted k [] s = tt
erase-IsSorted k ((j, d) ∷ m) s = ground (arith, Above-erase j k m, tail-IsSorted j m)
