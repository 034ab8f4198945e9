-- ===== src/Median5/Sorts.antt =====
-- median5.ts: the network sorts every five samples, and `reference` puts out their median.
use mathlib.Core.Path.{fun_ext}
use mathlib.Core.List.{Perm}
use mathlib.Core.List.Perm
use mog_jit.Prelude.{
  ℕ, zero, suc, ◌+◌, ◌-◌, ◌%◌, ◌≤◌, ◌≡◌, refl, sym, ap, subst, All, ◌∙◌, arith, List, [], ◌∷◌,
  get_or, ltb, min, max, some, set, get_elem?, length, length-set, ◌<◌, ◌==◌, if◌then◌else◌,
  get_or-set_self, get_or-set_ne, Bool-cases, inl, inr,
}
use mog_jit.Prelude.Swap.{swap, swap-Perm}
use mog_jit.Median5.{
  key, network, compare_exchange, run_network, window_from, reference_from, reference, median_index,
  taps,
}

-- The comparators on keys.
triple_sorts :
    (c d e : ℕ)
    → let d₁ = min d e in
      let e₁ = max d e in let c₁ = min c e₁ in (min c₁ d₁ ≤ max c₁ d₁) × (max c₁ d₁ ≤ max c e₁)
triple_sorts c d e = omega arith

merge_sorts :
    (a b c d e : ℕ)
    → a ≤ b
    → c ≤ d
    → d ≤ e
    → let b₁ = min b e in
      let a₁ = min a d in
      let d₁ = max a d in
      let c₁ = max a₁ c in
      let b₂ = min b₁ d₁ in
      (min a₁ c ≤ min b₂ c₁)
      × (min b₂ c₁ ≤ max b₂ c₁)
      × (max b₂ c₁ ≤ max b₁ d₁)
      × (max b₁ d₁ ≤ max b e)
merge_sorts a b c d e h k l = omega arith

-- What a comparator does to the keys by position.
exchange_keys : ℕ → ℕ → (ℕ → ℕ) → ℕ → ℕ
exchange_keys x y f i = if i == x then min (f x) (f y) else if i == y then max (f x) (f y) else f i

run_keys : List (ℕ × ℕ) → (ℕ → ℕ) → ℕ → ℕ
run_keys [] f = f
run_keys ((x, y) ∷ rest) f = run_keys rest (exchange_keys x y f)

abbrev keys_of : List ℕ → ℕ → ℕ
keys_of v i = key (get_or v i 0)

get_elem?-get_or : (v : List ℕ) (i : ℕ) → i < length v → get_elem? v i ≡ some (get_or v i 0)
get_elem?-get_or [] i h = elim h [ ]
get_elem?-get_or (x ∷ v) zero h = refl
get_elem?-get_or (x ∷ v) (suc i) h = get_elem?-get_or v i (omega arith)

swap-set :
    (v : List ℕ) (x y : ℕ)
    → x < length v
    → y < length v
    → swap v x y ≡ set (set v x (get_or v y 0)) y (get_or v x 0)
unfolding swap
swap-set v x y h k = rw (swap, get_elem?-get_or v x h, get_elem?-get_or v y k) refl

length-compare_exchange :
    (x y : ℕ) (v : List ℕ)
    → x < length v
    → y < length v
    → length (compare_exchange x y v) ≡ length v
unfolding compare_exchange
length-compare_exchange x y v h k =
    let w = get_or v y 0 in
    let u = get_or v x 0 in
    let l = length-set v x w in
    let m = length-set (set v x w) y u in rw (swap-set v x y h k) (ground (arith, l, m))

-- Where the elements are after an exchange.
get_or-swap :
    (v : List ℕ) (x y i : ℕ)
    → x < y
    → y < length v
    → get_or (swap v x y) i 0
      ≡ (if i == x then get_or v y 0 else if i == y then get_or v x 0 else get_or v i 0)
get_or-swap v x y i h k =
    let w = get_or v y 0 in
    let u = get_or v x 0 in
    let v₁ = set v x w in
    let l = length-set v x w in
    let at_x = get_or-set_self v x w 0 (omega arith) in
    let at_y = get_or-set_self v₁ y u 0 (omega (arith, l, k)) in
    rw (swap-set v x y (omega arith) k) (elim (Bool-cases (i == x)) [
      | inl e ↦
          let i≡x : i ≡ x = ground arith in
          rw (e, i≡x) (get_or-set_ne v₁ y x u 0 (λ p. omega arith) ∙ at_x)
      | inr e ↦ elim (Bool-cases (i == y)) [
        | inl f ↦ let i≡y : i ≡ y = ground arith in rw (e, f, i≡y) at_y
        | inr f ↦
            rw (e, f)
              (get_or-set_ne v₁ y i u 0 (λ p. ground arith)
                ∙ get_or-set_ne v x i w 0 (λ p. ground arith))
      ]
    ])

compare_exchange-keys :
    (x y : ℕ) (v : List ℕ) (i : ℕ)
    → x < y
    → y < length v
    → keys_of (compare_exchange x y v) i ≡ exchange_keys x y (keys_of v) i
unfolding compare_exchange exchange_keys
compare_exchange-keys x y v i h k = let swapped = get_or-swap v x y i h k in ground (arith, swapped)

-- The comparators of a network, within a list and each on a lower and a higher place.
abbrev InRange : ℕ → ℕ × ℕ → Type 0
InRange n (x, y) = (x < y) × (y < n)

run_network-keys :
    (net : List (ℕ × ℕ)) (v : List ℕ)
    → All (InRange (length v)) net
    → keys_of (run_network net v) ≡ run_keys net (keys_of v)
unfolding run_network run_keys
run_network-keys [] v h = refl
run_network-keys ((x, y) ∷ rest) v h =
    let r = compare_exchange x y v in
    let l = length-compare_exchange x y v (omega (arith, h.0.0, h.0.1)) h.0.1 in
    let ih = run_network-keys rest r (subst (λ n. All (InRange n) rest) (sym l) h.1) in
    let step : keys_of r ≡ exchange_keys x y (keys_of v) =
      fun_ext (λ i. compare_exchange-keys x y v i h.0.0 h.0.1) in
    ih ∙ ap (run_keys rest) step

network_keys-sorted :
    (f : ℕ → ℕ)
    → let g = run_keys network f in (g 0 ≤ g 1) × (g 1 ≤ g 2) × (g 2 ≤ g 3) × (g 3 ≤ g 4)
unfolding run_keys exchange_keys
network_keys-sorted f =
    let t = triple_sorts (f 2) (f 3) (f 4) in
    merge_sorts (min (f 0) (f 1)) (max (f 0) (f 1))
      (min (min (f 2) (max (f 3) (f 4))) (min (f 3) (f 4)))
      (max (min (f 2) (max (f 3) (f 4))) (min (f 3) (f 4))) (max (f 2) (max (f 3) (f 4)))
      (omega arith) t.0 t.1

compare_exchange-Perm : (x y : ℕ) (v : List ℕ) → Perm v (compare_exchange x y v)
unfolding compare_exchange
compare_exchange-Perm x y v = elim (Bool-cases (ltb (key (get_or v y 0)) (key (get_or v x 0)))) [
  | inl e ↦ rw (e, compare_exchange) (swap-Perm v x y)
  | inr e ↦ rw (e, compare_exchange) (Perm.refl v)
]

run_network-Perm : (net : List (ℕ × ℕ)) (v : List ℕ) → Perm v (run_network net v)
unfolding run_network
run_network-Perm [] v = Perm.refl v
run_network-Perm ((x, y) ∷ rest) v =
    Perm.trans (compare_exchange-Perm x y v) (run_network-Perm rest (compare_exchange x y v))

-- Five samples in ascending signed order.
abbrev pub IsSorted : List ℕ → Type 0
IsSorted v =
    (keys_of v 0 ≤ keys_of v 1)
    × (keys_of v 1 ≤ keys_of v 2)
    × (keys_of v 2 ≤ keys_of v 3)
    × (keys_of v 3 ≤ keys_of v 4)

sorted_by :
    (f g : ℕ → ℕ)
    → g ≡ f
    → (f 0 ≤ f 1) × (f 1 ≤ f 2) × (f 2 ≤ f 3) × (f 3 ≤ f 4)
    → (g 0 ≤ g 1) × (g 1 ≤ g 2) × (g 2 ≤ g 3) × (g 3 ≤ g 4)
sorted_by f g e h = rw e h

network-InRange : (n : ℕ) → n ≡ 5 → All (InRange n) network
network-InRange n h = (
  (omega arith, omega arith),
  (
    (omega arith, omega arith),
    (
      (omega arith, omega arith),
      (
        (omega arith, omega arith),
        (
          (omega arith, omega arith),
          (
            (omega arith, omega arith),
            (
              (omega arith, omega arith),
              ((omega arith, omega arith), ((omega arith, omega arith), tt)),
            ),
          ),
        ),
      ),
    ),
  ),
)

-- The network brings any five samples into ascending signed order, and only reorders them.
pub run_network_sorts :
    (v : List ℕ) → length v ≡ 5 → IsSorted (run_network network v) × Perm v (run_network network v)
run_network_sorts v h = (
  sorted_by (run_keys network (keys_of v)) (keys_of (run_network network v))
      (run_network-keys network v (network-InRange (length v) h)) (network_keys-sorted (keys_of v)),
  run_network-Perm network v,
)

length-window_from : (input : List ℕ) (i k : ℕ) → length (window_from input i k) ≡ k
unfolding window_from
length-window_from input i zero = refl
length-window_from input i (suc k) = ap suc (length-window_from input i k)

get_or-reference_from :
    (input : List ℕ) (n i k : ℕ)
    → k < n
    → get_or (reference_from input i n) k 0
      ≡ get_or (run_network network (window_from input (i + k) taps)) median_index 0
unfolding reference_from
get_or-reference_from input zero i k h = elim h [ ]
get_or-reference_from input (suc n) i zero h = let e : i + 0 ≡ i = omega arith in rw e refl
get_or-reference_from input (suc n) i (suc k) h =
    let e : i + suc k ≡ i + 1 + k = omega arith in
    rw e (get_or-reference_from input n (i + 1) k (omega arith))

-- The window with a given place for its last sample.
abbrev window_at : List ℕ → ℕ → ℕ → List ℕ
window_at input i j =
    get_or input ((i + 4096 - 4) % 4096) 0
    ∷ get_or input ((i + 4096 - 3) % 4096) 0
    ∷ get_or input ((i + 4096 - 2) % 4096) 0
    ∷ get_or input ((i + 4096 - 1) % 4096) 0
    ∷ get_or input j 0
    ∷ []

-- What `reference` puts out for sample i is the median of this sample and the four before it, the
-- ring of 4096 wrapping below 0: the third of these five in ascending signed order.
pub reference_median :
    (input : List ℕ) (n i : ℕ)
    → i < n
    → (sorted : List ℕ) × Perm
        (get_or input ((i + 4096 - 4) % 4096) 0
          ∷ get_or input ((i + 4096 - 3) % 4096) 0
          ∷ get_or input ((i + 4096 - 2) % 4096) 0
          ∷ get_or input ((i + 4096 - 1) % 4096) 0
          ∷ get_or input (i % 4096) 0
          ∷ [])
        sorted
      × IsSorted sorted
      × (get_or (reference input n) i 0 ≡ get_or sorted 2 0)
unfolding reference window_from
reference_median input n i h =
    let v = window_from input i taps in
    let r = run_network_sorts v (length-window_from input i taps) in
    let e : 0 + i ≡ i = omega arith in
    let around : (i + 4096 - 0) % 4096 ≡ i % 4096 = omega arith in
    let middle =
      ap (λ j. get_or (run_network network (window_from input j taps)) median_index 0) e in
    let moved = subst (λ j. Perm (window_at input i j) (run_network network v)) around r.1 in
    (run_network network v, moved, r.0, get_or-reference_from input n 0 i h ∙ middle)
