-- ===== src/Actuator/Keys.antt =====
-- The array of pressed keys that hid_task of main/tusb/tusb_actuator.c keeps: `pressed_keys` and
-- `key_count`.
use esp32_deskflow.Prelude.{
  ℕ, zero, suc, ◌+◌, ◌-◌, ◌≤◌, ◌<◌, ◌≡◌, ◌≢◌, ◌↔◌, ◌⊎◌, inl, inr, refl, arith, List, [], ◌∷◌,
  Option, some, none, ltb, ◌==◌, if◌then◌else◌, length, get_or, set, replicate, length-set,
  get_or-set_self, get_or-set_ne, ◌∙◌, Bool-cases, Option-cases, sym, subst, get_or-replicate,
  ltb→lt, ltb→le,
}

abbrev pub hid_max_keys : ℕ
hid_max_keys = 6

-- The search `for (i = 0; i < key_count; i++)`, with the rounds left: the index of the key.
unfoldable pub find_key : List ℕ → ℕ → ℕ → Option ℕ
find_key keys zero key = none
find_key [] (suc left) key = none
find_key (k ∷ ks) (suc left) key =
    let rest = find_key ks left key in
    if k == key then some 0 else elim rest [ none ↦ none | some i ↦ some (suc i) ]

-- KEY_DOWN: an array and a count to an array and a count.
unfoldable pub press_key : List ℕ → ℕ → ℕ → List ℕ × ℕ
press_key keys count key =
    if ltb count hid_max_keys
    then elim (find_key keys count key) [
      | some i ↦ (keys, count)
      | none ↦ (set keys count key, count + 1)
    ]
    else (keys, count)

-- KEY_UP: the last key takes the place of the released one; an unknown key releases all.
unfoldable pub release_key : List ℕ → ℕ → ℕ → List ℕ × ℕ
release_key keys count key = elim (find_key keys count key) [
  | some i ↦ (set (set keys i (get_or keys (count - 1) 0)) (count - 1) 0, count - 1)
  | none ↦ (replicate 6 0, 0)
]

-- Six cells, at most six keys, no key twice, and zeros from the count on.
pub record IsKeys (keys : List ℕ) (count : ℕ) : Type 0 where
  pub cells : length keys ≡ 6
  pub bounded : count ≤ 6
  pub zeros : (i : ℕ) → count ≤ i → get_or keys i 0 ≡ 0
  pub distinct : (i j : ℕ) → i < count → j < count → get_or keys i 0 ≡ get_or keys j 0 → i ≡ j

-- The key is one of the first `count`.
abbrev pub Held : List ℕ → ℕ → ℕ → Type 0
Held keys count key = (i : ℕ) × (i < count) × (get_or keys i 0 ≡ key)

find_some :
    (keys : List ℕ) (left key i : ℕ)
    → find_key keys left key ≡ some i
    → (i < left) × (get_or keys i 0 ≡ key)
unfolding find_key
find_some keys zero key i e = ground arith
find_some [] (suc left) key i e = ground arith
find_some (k ∷ ks) (suc left) key zero e = ground arith
find_some (k ∷ ks) (suc left) key (suc i) e = ground (arith, find_some ks left key i)

find_none :
    (keys : List ℕ) (left key i : ℕ)
    → find_key keys left key ≡ none
    → left ≤ length keys
    → i < left
    → get_or keys i 0 ≢ key
unfolding find_key
find_none keys zero key i e r h = absurd (omega arith)
find_none [] (suc left) key i e r h = absurd (omega arith)
find_none (k ∷ ks) (suc left) key zero e r h = ground arith
find_none (k ∷ ks) (suc left) key (suc i) e r h = ground (arith, find_none ks left key i)

get_or-set :
    (keys : List ℕ) (i v j : ℕ)
    → i < length keys
    → get_or (set keys i v) j 0 ≡ (if j == i then v else get_or keys j 0)
get_or-set keys i v j h = ground (arith, get_or-set_self keys i v 0, get_or-set_ne keys i j v 0)

append-IsKeys :
    (keys : List ℕ) (count key : ℕ)
    → IsKeys keys count
    → count < 6
    → find_key keys count key ≡ none
    → IsKeys (set keys count key) (count + 1)
append-IsKeys keys count key w room absent =
    let cell = λ (j : ℕ). get_or-set keys count key j (omega (arith, w.cells)) in
    let fresh = λ (i : ℕ). find_none keys count key i absent (omega (arith, w.cells)) in
    record {
      cells = length-set keys count key ∙ w.cells;
      bounded = omega arith;
      zeros = λ i h. ground (arith, cell i, w.zeros i);
      distinct = λ i j h k e. ground (arith, cell i, cell j, fresh i, fresh j, w.distinct i j);
    }

append-Held :
    (keys : List ℕ) (count key k : ℕ)
    → count < length keys
    → Held (set keys count key) (count + 1) k ↔ (Held keys count k ⊎ (k ≡ key))
append-Held keys count key k room =
    let cell = λ (j : ℕ). get_or-set keys count key j room in
    (
      λ (i, h, e). elim (Bool-cases (i == count)) [
        | inl same ↦ inr (ground (arith, cell i))
        | inr other ↦ inl (i, ground arith, ground (arith, cell i))
      ],
      λ s. elim s [
        | inl (i, h, e) ↦ (i, omega arith, ground (arith, cell i))
        | inr e ↦ (count, omega arith, ground (arith, cell count))
      ],
    )

-- KEY_DOWN keeps the array well formed, and afterwards a key is held exactly when it was held
-- before, or it is the pressed key and there was room for it.
pub press_key_lem :
    (keys : List ℕ) (count key k : ℕ)
    → IsKeys keys count
    → (let (keys', count') = press_key keys count key in
        IsKeys keys' count' × (Held keys' count' k ↔ (Held keys count k ⊎ (count < 6) × (k ≡ key))))
unfolding press_key
press_key_lem keys count key k w = elim (Bool-cases (ltb count 6)) [
  | inl room ↦ elim (Option-cases (find_key keys count key)) [
    | inl absent ↦
        let lt = ltb→lt count 6 room in
        rw room (
          rw absent (
            append-IsKeys keys count key w lt absent,
            (
              λ h. elim ((append-Held keys count key k (omega (arith, w.cells))).0 h) [
                | inl held ↦ inl held
                | inr e ↦ inr (lt, e)
              ],
              λ s.
                  (append-Held keys count key k (omega (arith, w.cells))).1
                    (elim s [ inl held ↦ inl held | inr e ↦ inr e.1 ]),
            ),
          ))
    | inr (i, found) ↦
        let (below, same) = find_some keys count key i found in
        rw room (
          rw found
            (w, (λ h. inl h, λ s. elim s [ inl held ↦ held | inr e ↦ (i, below, same ∙ sym e.1) ])))
  ]
  | inr full ↦
      let le = ltb→le count 6 full in
      rw full
        (w, (λ h. inl h, λ s. elim s [ inl held ↦ held | inr e ↦ absurd (omega (arith, le, e.0)) ]))
]

swap_out : List ℕ → ℕ → ℕ → List ℕ
swap_out keys last i = set (set keys i (get_or keys last 0)) last 0

swap_out-cell :
    (keys : List ℕ) (last i j : ℕ)
    → i < length keys
    → last < length keys
    → get_or (swap_out keys last i) j 0
      ≡ (if j == last then 0 else if j == i then get_or keys last 0 else get_or keys j 0)
unfolding swap_out
swap_out-cell keys last i j h l = ground (
  arith,
  get_or-set (set keys i (get_or keys last 0)) last 0 j,
  get_or-set keys i (get_or keys last 0) j h,
  length-set keys i (get_or keys last 0),
)

swap_out-IsKeys :
    (keys : List ℕ) (last i : ℕ)
    → IsKeys keys (suc last)
    → i ≤ last
    → IsKeys (swap_out keys last i) last
swap_out-IsKeys keys last i w h =
    let cell = λ (j : ℕ).
      swap_out-cell keys last i j (omega (arith, w.cells, w.bounded))
        (omega (arith, w.cells, w.bounded)) in
    record {
      cells =
          unfold swap_out in
          length-set (set keys i (get_or keys last 0)) last 0
          ∙ length-set keys i (get_or keys last 0)
          ∙ w.cells;
      bounded = omega (arith, w.bounded);
      zeros = λ j k. ground (arith, cell j, w.zeros j);
      distinct = λ j k jl kl e.
          ground (arith, cell j, cell k, w.distinct j k, w.distinct last k, w.distinct j last);
    }

swap_out-Held :
    (keys : List ℕ) (last i k : ℕ)
    → IsKeys keys (suc last)
    → i ≤ last
    → Held (swap_out keys last i) last k ↔ (Held keys (suc last) k × (k ≢ get_or keys i 0))
swap_out-Held keys last i k w h =
    let cell = λ (j : ℕ).
      swap_out-cell keys last i j (omega (arith, w.cells, w.bounded))
        (omega (arith, w.cells, w.bounded)) in
    (
      λ (j, l, e). elim (Bool-cases (j == i)) [
        | inl same ↦ (
          (last, omega arith, ground (arith, cell j)),
          λ bad. ground (arith, cell j, w.distinct last i),
        )
        | inr other ↦ (
          (j, omega arith, ground (arith, cell j)),
          λ bad. ground (arith, cell j, w.distinct j i),
        )
      ],
      λ ((j, l, e), ne). elim (Bool-cases (j == last)) [
        | inl same ↦ (i, ground (arith, e, ne), ground (arith, cell i))
        | inr other ↦ (j, ground arith, ground (arith, cell j))
      ],
    )

pub none-IsKeys : IsKeys (replicate 6 0) 0
none-IsKeys = record {
  cells = refl;
  bounded = omega arith;
  zeros = λ i h. get_or-replicate 6 0 i;
  distinct = λ i j h k e. absurd (omega arith);
}

-- KEY_UP keeps the array well formed. Afterwards a key is held exactly when the released key was
-- held, this one was held, and the two differ: releasing a key that is not held releases all.
pub release_key_lem :
    (keys : List ℕ) (count key k : ℕ)
    → IsKeys keys count
    → (let (keys', count') = release_key keys count key in
        IsKeys keys' count'
        × (Held keys' count' k ↔ (Held keys count key × Held keys count k × (k ≢ key))))
unfolding release_key swap_out
release_key_lem keys count key k w = elim (Option-cases (find_key keys count key)) [
  | inl absent ↦
      rw (absent, release_key)
        (
          none-IsKeys,
          (
            λ (i, h, e). absurd (omega arith),
            λ ((i, h, e), _, _).
                absurd (find_none keys count key i absent (omega (arith, w.cells, w.bounded)) h e),
          ),
        )
  | inr (i, found) ↦
      let (below, same) = find_some keys count key i found in
      let last : ℕ = count - 1 in
      let top : count ≡ suc last = omega arith in
      let w' : IsKeys keys (suc last) = subst (λ c. IsKeys keys c) top w in
      let swap = swap_out-Held keys last i k w' (omega arith) in
      rw (found, release_key)
        (
          swap_out-IsKeys keys last i w' (omega arith),
          (
            λ s.
                let ((j, l, e), ne) = swap.0 s in
                ((i, below, same), (j, omega arith, e), λ bad. ne (bad ∙ sym same)),
            λ (_, (j, l, e), ne). swap.1 ((j, omega arith, e), λ bad. ne (bad ∙ same)),
          ),
        )
]
