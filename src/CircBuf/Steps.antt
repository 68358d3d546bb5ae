-- ===== src/CircBuf/Steps.antt =====
-- What each call does to the contents of a valid buffer.
use mathlib.Core.Path.{ap₂}
use esp_misc.Common.{
  ℕ, suc, ◌-◌, ◌≡◌, ◌∙◌, ap, false, [], ◌∷◌, ◌++◌, arith, tabulate, tabulate_cong, tabulate_snoc,
}
use esp_misc.CircBuf.{
  clear_empty, clear_full, put_one, get_one, unput_one, unget_one, Ring, prev_pointer, get_space,
  get_fill,
}
use esp_misc.CircBuf.Valid.{IsValid, capacity, count, slot, contents, IsOutside}
use esp_misc.CircBuf.Slots.{
  count-le, slot-count, slot_ne_in, slot-next, slot-prev, slot-prev_zero, slot_bounds,
}

module _ (s : Ring) (v : IsValid s.obj) where
  -- A put into a buffer with room appends the byte.
  pub contents-put_one :
      (x : ℕ) → s.cbuff_full ≡ false → contents (clear_empty (put_one x s)) ≡ contents s ++ (x ∷ [])
  unfolding put_one
  contents-put_one x room =
      ap (λ n. tabulate n f) grown
      ∙ tabulate_snoc (count s.obj) f
      ∙ ap₂ ◌++◌ (tabulate_cong (count s.obj) f _ (λ k lt. ground (arith, slot_ne_in v k room lt)))
          (ap (λ y. y ∷ []) (ground (arith, slot-count v room)))
    where
      f : ℕ → ℕ
      f k = (clear_empty (put_one x s)).mem (slot s.obj s.out_pointer k)

      grown : count (clear_empty (put_one x s)).obj ≡ suc (count s.obj)
      grown = ground arith

  -- Taking a byte leaves those behind it, whatever is written outside the buffer.
  pub contents-get_one :
      (to n : ℕ)
      → IsOutside s.obj to
      → count s.obj ≡ suc n
      → contents (clear_full (get_one to s))
        ≡ tabulate n (λ k. s.mem (slot s.obj s.out_pointer (suc k)))
  unfolding get_one
  contents-get_one to n out e =
      ap (λ m. tabulate m f) less
      ∙ tabulate_cong n f _ (λ k lt. ground (
        arith,
        slot-next v k (omega (arith, count-le v)),
        slot_bounds v (suc k) (omega (arith, count-le v)),
      ))
    where
      f : ℕ → ℕ
      f k = (clear_full (get_one to s)).mem (slot s.obj (clear_full (get_one to s)).out_pointer k)

      less : count (clear_full (get_one to s)).obj ≡ n
      less = ground arith

  -- Taking back a byte leaves those before it.
  pub contents-unput_one :
      (n : ℕ)
      → count s.obj ≡ suc n
      → contents (clear_full (unput_one s)) ≡ tabulate n (λ k. s.mem (slot s.obj s.out_pointer k))
  unfolding unput_one
  contents-unput_one n e = ap (λ m. tabulate m f) less ∙ tabulate_cong n f _ (λ k lt. ground arith)
    where
      f : ℕ → ℕ
      f k = (clear_full (unput_one s)).mem (slot s.obj (clear_full (unput_one s)).out_pointer k)

      less : count (clear_full (unput_one s)).obj ≡ n
      less = ground arith

  -- An unget brings back whatever stands in the slot before the oldest byte.
  pub contents-unget_one :
      s.cbuff_full ≡ false
      → contents (clear_empty (unget_one s)) ≡ s.mem (prev_pointer s.obj s.out_pointer) ∷ contents s
  unfolding unget_one
  contents-unget_one room =
      ap (λ m. tabulate m f) more
      ∙ ap₂ ◌∷◌ (ground (arith, slot-prev_zero v)) (
          tabulate_cong (count s.obj) (λ k. f (suc k)) _
            (λ k lt. ground (arith, slot-prev v k (omega (arith, count-le v)))))
    where
      f : ℕ → ℕ
      f k = (clear_empty (unget_one s)).mem (slot s.obj (clear_empty (unget_one s)).out_pointer k)

      more : count (clear_empty (unget_one s)).obj ≡ suc (count s.obj)
      more = ground arith

  pub get_space_lem : get_space s ≡ capacity s.obj - count s.obj
  unfolding get_space
  get_space_lem = ground arith

  pub get_fill_lem : get_fill s ≡ count s.obj
  unfolding get_fill
  get_fill_lem = ground arith
