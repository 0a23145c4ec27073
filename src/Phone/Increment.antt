-- ===== src/Phone/Increment.antt =====
-- The phone's increment of a nonce, which counts bytes up to 127 only.
use esloq.Base.{
  ℕ, zero, suc, ◌+◌, ◌*◌, ◌%◌, ◌<◌, ◌≡◌, ◌≢◌, refl, sym, ◌∙◌, ap, ap₂, subst, List, [], ◌∷◌, ◌++◌,
  length, get_elem?, set, some, replicate, arith, append_assoc, length-append, ne→==,
}
use native.Mathlib.Decide.{ℕ_discrete}
use esloq.Nonce.Order.{value}
use esloq.Nonce.Reversal.{get_elem?-append, set-append, value_from-append}
use esloq.Phone.{Tried, gave, increment_at_index, increment_byte_array}

abbrev pub AllLow : List ℕ → Type 0
AllLow [] = Unit {0}
AllLow (x ∷ xs) = (x < 128) × AllLow xs

pub AllLow-snoc : (xs : List ℕ) (x : ℕ) → AllLow xs → x < 128 → AllLow (xs ++ (x ∷ []))
AllLow-snoc [] x h k = (k, tt)
AllLow-snoc (y ∷ xs) x h k = (h.0, AllLow-snoc xs x h.1 k)

-- All but the last byte, and the last byte.
pub snoc_view :
    (xs : List ℕ) (n : ℕ)
    → length xs ≡ suc n
    → AllLow xs
    → (q : List ℕ) × (c : ℕ) × (xs ≡ q ++ (c ∷ [])) × (length q ≡ n) × AllLow q × (c < 128)
snoc_view [] n e h = absurd (omega arith)
snoc_view (x ∷ []) n e h = ([], x, refl, omega arith, tt, h.0)
snoc_view (x ∷ y ∷ xs) n e h =
    let (q, c, eq, len, low, small) = snoc_view (y ∷ xs) (length xs) refl h.1 in
    (x ∷ q, c, ap (λ l. x ∷ l) eq, omega arith, (h.0, low), small)

pub value-snoc : (xs : List ℕ) (x : ℕ) → value (xs ++ (x ∷ [])) ≡ value xs * 256 + x
value-snoc xs x = value_from-append 0 xs (x ∷ [])

-- The number that bytes under 128 spell to the base 128.
abbrev pub count_from : ℕ → List ℕ → ℕ
count_from acc [] = acc
count_from acc (x ∷ xs) = count_from (acc * 128 + x) xs

abbrev pub count : List ℕ → ℕ
count = count_from 0

count_from-append :
    (acc : ℕ) (xs ys : List ℕ) → count_from acc (xs ++ ys) ≡ count_from (count_from acc xs) ys
count_from-append acc [] ys = refl
count_from-append acc (x ∷ xs) ys = count_from-append (acc * 128 + x) xs ys

pub count-snoc : (xs : List ℕ) (x : ℕ) → count (xs ++ (x ∷ [])) ≡ count xs * 128 + x
count-snoc xs x = count_from-append 0 xs (x ∷ [])

replicate-snoc : (n x : ℕ) → replicate n x ++ (x ∷ []) ≡ replicate (suc n) x
replicate-snoc zero x = refl
replicate-snoc (suc n) x = ap (λ l. x ∷ l) (replicate-snoc n x)

-- What the increment makes of `p ++ (b ∷ [])`, before `z`.
pub record Incremented (p : List ℕ) (b : ℕ) (z : List ℕ) (result : Tried (List ℕ)) : Type 0 where
  pub front : List ℕ
  pub last : ℕ
  pub result_is : result ≡ gave (front ++ (last ∷ z))
  pub same_length : length front ≡ length p
  pub low : AllLow front
  pub last_low : last < 128
  pub greater : value (p ++ (b ∷ [])) < value (front ++ (last ∷ []))
  pub counts : count (front ++ (last ∷ [])) ≡ count (p ++ (b ∷ [])) + 1
  pub turns_even : b % 2 ≡ 1 → last % 2 ≡ 0

lt_of_ne : (b : ℕ) → b ≢ 127 → b < 128 → b < 127
lt_of_ne b other small = ground arith

module _ (p : List ℕ) (b : ℕ) (z : List ℕ) (n : ℕ) (e : length p ≡ n) where
  pub read_at : get_elem? (p ++ (b ∷ z)) n ≡ some b
  read_at = ap (get_elem? (p ++ (b ∷ z))) (sym e) ∙ get_elem?-append p z b

  pub write_at : (v : ℕ) → set (p ++ (b ∷ z)) n v ≡ p ++ (v ∷ z)
  write_at v = ap (λ i. set (p ++ (b ∷ z)) i v) (sym e) ∙ set-append p z b v

-- A byte under 127 at the index is one more.
in_place_lem :
    (p : List ℕ) (b : ℕ) (z : List ℕ) (n : ℕ)
    → length p ≡ n
    → b < 127
    → increment_at_index (p ++ (b ∷ z)) n ≡ gave (p ++ ((b + 1) ∷ z))
unfolding increment_at_index
in_place_lem p b z zero e small =
    let wrap : (b + 1) % 256 ≡ b + 1 = omega (arith, small) in
    rw (
      read_at p b z 0 e,
      ne→== b 127 (λ h. absurd (omega (arith, h, small))),
      write_at p b z 0 e ((b + 1) % 256),
      wrap,
      increment_at_index,
    )
in_place_lem p b z (suc n) e small =
    let wrap : (b + 1) % 256 ≡ b + 1 = omega (arith, small) in
    rw (
      read_at p b z (suc n) e,
      ne→== b 127 (λ h. absurd (omega (arith, h, small))),
      write_at p b z (suc n) e ((b + 1) % 256),
      wrap,
      increment_at_index,
    )

in_place :
    (p : List ℕ) (b : ℕ) (z : List ℕ) (n : ℕ)
    → length p ≡ n
    → AllLow p
    → b < 127
    → Incremented p b z (increment_at_index (p ++ (b ∷ z)) n)
in_place p b z n e low small = record {
  front = p;
  last = b + 1;
  result_is = in_place_lem p b z n e small;
  same_length = refl;
  low = low;
  last_low = omega (arith, small);
  greater = omega (arith, value-snoc p b, value-snoc p (b + 1));
  counts = omega (arith, count-snoc p b, count-snoc p (b + 1));
  turns_even = λ odd. omega arith;
}

-- A byte of 127 becomes 0 and carries.
carry_lem :
    (p : List ℕ) (z : List ℕ) (n : ℕ)
    → length p ≡ suc n
    → increment_at_index (p ++ (127 ∷ z)) (suc n) ≡ increment_at_index (p ++ (0 ∷ z)) n
unfolding increment_at_index
carry_lem p z n e = rw (read_at p 127 z (suc n) e, write_at p 127 z (suc n) e 0, increment_at_index)

carried :
    (n : ℕ) (p : List ℕ) (b : ℕ) (z q : List ℕ) (c : ℕ)
    → length p ≡ suc n
    → b ≡ 127
    → p ≡ q ++ (c ∷ [])
    → Incremented q c (0 ∷ z) (increment_at_index (q ++ (c ∷ 0 ∷ z)) n)
    → Incremented p b z (increment_at_index (p ++ (b ∷ z)) (suc n))
carried n p b z q c e top eq ih = record {
  front = ih.front ++ (ih.last ∷ []);
  last = 0;
  result_is =
      ap (λ x. increment_at_index (p ++ (x ∷ z)) (suc n)) top
      ∙ carry_lem p z n e
      ∙ ap (λ l. increment_at_index (l ++ (0 ∷ z)) n) eq
      ∙ ap (λ l. increment_at_index l n) (append_assoc q (c ∷ []) (0 ∷ z))
      ∙ ih.result_is
      ∙ ap gave (sym (append_assoc ih.front (ih.last ∷ []) (0 ∷ z)));
  same_length = omega (
    arith,
    length-append ih.front (ih.last ∷ []),
    length-append q (c ∷ []),
    ap length eq,
    ih.same_length,
  );
  low = AllLow-snoc ih.front ih.last ih.low ih.last_low;
  last_low = omega arith;
  greater = omega (
    arith,
    top,
    value-snoc p b,
    ap value eq,
    ih.greater,
    value-snoc (ih.front ++ (ih.last ∷ [])) 0,
  );
  counts = omega (
    arith,
    top,
    count-snoc p b,
    ap count eq,
    ih.counts,
    count-snoc (ih.front ++ (ih.last ∷ [])) 0,
  );
  turns_even = λ odd. refl;
}

-- At an index whose bytes up to it are under 128 and not all 127.
at_index :
    (n : ℕ) (p : List ℕ) (b : ℕ) (z : List ℕ)
    → length p ≡ n
    → AllLow p
    → b < 128
    → p ++ (b ∷ []) ≢ replicate (suc n) 127
    → Incremented p b z (increment_at_index (p ++ (b ∷ z)) n)
at_index zero [] b z e low small room =
    in_place [] b z 0 e low
      (omega (arith, small, lt_of_ne b (λ top. room (ap (λ x. x ∷ []) top)) small))
at_index zero (x ∷ p) b z e low small room = absurd (omega arith)
at_index (suc n) p b z e low small room = elim (ℕ_discrete b 127) [
  | no other ↦ in_place p b z (suc n) e low (lt_of_ne b other small)
  | yes top ↦
      let (q, c, eq, len, q_low, c_low) = snoc_view p n e low in
      carried n p b z q c e top eq (
        at_index n q c (0 ∷ z) len q_low c_low
          (λ full. room (ap₂ (λ l x. l ++ (x ∷ [])) (eq ∙ full) top ∙ replicate-snoc (suc n) 127)))
]

-- The increment of a nonce of bytes under 128, not all of them 127, is greater, is of such bytes
-- again, and is even if the nonce was odd.
pub increment_byte_array-Incremented :
    (p : List ℕ) (b : ℕ)
    → AllLow p
    → b < 128
    → p ++ (b ∷ []) ≢ replicate (length p + 1) 127
    → Incremented p b [] (increment_byte_array (p ++ (b ∷ [])))
unfolding increment_byte_array
increment_byte_array-Incremented [] b low small room = at_index 0 [] b [] refl low small room
increment_byte_array-Incremented (x ∷ p) b low small room =
    subst (λ n. Incremented (x ∷ p) b [] (increment_at_index (x ∷ (p ++ (b ∷ []))) n))
      (omega (arith, length-append p (b ∷ [])))
      (at_index (suc (length p)) (x ∷ p) b [] refl low small
        (λ full. room (full ∙ ap (λ n. replicate n 127) {x = suc (suc (length p))} (omega arith))))
