-- ===== src/Iosc/Advanced.antt =====
-- The loop of `IOSC_SetData` in kernel/source/crypto/iosc.c where the one-time-programmable memory is
-- not set: the counters are variables of the kernel.
use star_struck.Base.{
  ℕ, zero, suc, ◌+◌, ◌^◌, ◌<◌, ltb, ◌==◌, ◌≡◌, refl, ap, sym, ◌∙◌, Bool, true, false, Bool-cases,
  inl, inr, ◌⊎◌, some, pos, to_u32, add_u32, ok, arith, if◌then◌else◌, lt→ltb, ltb→lt,
}
use star_struck.Keyring.State.{Keyring, ipc_success}
use star_struck.Seeprom.Seed.{to_s32}
use star_struck.Iosc.Counters.{
  Counters, Board, Getter, boot2_get_version, boot2_get_unk1, nand_get_gen, boot2_update_version,
  boot2_update_unk1, nand_update_gen,
}
use star_struck.Iosc.SetData.{
  keyring_const_boot2_version, keyring_const_boot2_unk1, select_counter, advance, set_data,
}
use star_struck.Iosc.CounterKey.{IsCounterKey, with_metadata, set_data-advance}

pub to_u32-to_s32 : (x : ℕ) → x < 2 ^ 32 → to_u32 (to_s32 x) ≡ x
to_u32-to_s32 x h = elim (Bool-cases (ltb x (2 ^ 31))) [
  | inl low ↦ rw low (omega (arith, h))
  | inr high ↦ rw high (ground (arith, h, high))
]

unfoldable pub larger : ℕ → ℕ → ℕ
larger a b = if ltb a b then b else a

-- A variable that one call reads and the other raises by one.
record IsVariable (b : Board) (getting updating : Getter) (value_of : Counters → ℕ)
    (put : ℕ → Counters → Counters) : Type 0 where
  get : (c : Counters) → getting b c ≡ (to_s32 (value_of c), c)
  raise : (c : Counters) → updating b c ≡ (pos 0, put (add_u32 (value_of c) 1) c)
  value_of-put : (x : ℕ) (c : Counters) → value_of (put x c) ≡ x
  put-put : (x y : ℕ) (c : Counters) → put x (put y c) ≡ put x c
  put-same : (c : Counters) → put (value_of c) c ≡ c

module _ (b : Board) (getting updating : Getter) (value_of : Counters → ℕ)
    (put : ℕ → Counters → Counters) (v : IsVariable b getting updating value_of put) (value : ℕ)
    (small : value < 2 ^ 32) where
  advance-stop :
      (fuel : ℕ) (c : Counters)
      → value_of c < 2 ^ 32
      → ltb (value_of c) value ≡ false
      → advance (suc fuel) getting updating value b c ≡ ok (ipc_success, c)
  unfolding advance
  advance-stop fuel c fits done = rw (v.get c, to_u32-to_s32 (value_of c) fits, done) refl

  advance-step :
      (fuel : ℕ) (c : Counters)
      → value_of c < value
      → advance (suc fuel) getting updating value b c
        ≡ advance fuel getting updating value b (put (value_of c + 1) c)
  unfolding advance
  advance-step fuel c less =
      let test : ltb (value_of c) value ≡ true = lt→ltb (value_of c) value less in
      let next : add_u32 (value_of c) 1 ≡ value_of c + 1 = omega (arith, less, small) in
      rw (v.get c, v.raise c, to_u32-to_s32 (value_of c) (omega (arith, less, small)), test, next)
        refl

  -- The variable is raised to the value, in as many rounds as it takes.
  advance-put :
      (fuel x : ℕ) (c : Counters)
      → value_of c ≡ x
      → x < 2 ^ 32
      → value < fuel + x
      → 0 < fuel
      → advance fuel getting updating value b c ≡ ok (ipc_success, put (larger x value) c)
  unfolding larger
  advance-put zero x c e fits enough some_round = absurd (omega arith)
  advance-put (suc fuel) x c e fits enough some_round = elim (Bool-cases (ltb x value)) [
    | inl less ↦
        let low : x < value = ltb→lt x value less in
        let rest =
          advance-put fuel (x + 1) (put (x + 1) c) (v.value_of-put (x + 1) c)
            (omega (arith, low, small)) (omega (arith, enough)) (omega (arith, enough, low)) in
        let most : larger (x + 1) value ≡ larger x value = ground (arith, low) in
        advance-step fuel c (rw e low)
        ∙ (ap (λ (y : ℕ). advance fuel getting updating value b (put (y + 1) c)) e
            ∙ (rest
                ∙ (ap (λ (d : Counters). ok (ipc_success, d))
                      (v.put-put (larger (x + 1) value) (x + 1) c)
                    ∙ ap (λ (y : ℕ). ok (ipc_success, put y c)) most)))
    | inr done ↦
        advance-stop fuel c (rw e fits) (rw e done)
        ∙ ap (λ (d : Counters). ok (ipc_success, d))
            (sym (v.put-same c)
              ∙ ap (λ (y : ℕ). put y c) (e ∙ sym (ap (λ (t : Bool). if t then value else x) done)))
  ]

-- The variable of a counter, by its key handle, and the variables with that one set.
unfoldable pub dummy : ℕ → Counters → ℕ
dummy h c =
    if h == keyring_const_boot2_version
    then c.dummy_version
    else if h == keyring_const_boot2_unk1
    then c.dummy_unk1
    else c.dummy_gen

unfoldable pub put_dummy : ℕ → ℕ → Counters → Counters
put_dummy h x c =
    if h == keyring_const_boot2_version
    then record c { dummy_version = x }
    else if h == keyring_const_boot2_unk1
    then record c { dummy_unk1 = x }
    else record c { dummy_gen = x }

module _ (b : Board) (otp : b.otp_is_set ≡ false) where
  version-IsVariable : IsVariable b boot2_get_version boot2_update_version (dummy 7) (put_dummy 7)
  unfolding boot2_get_version boot2_update_version dummy put_dummy
  version-IsVariable = record {
    get = λ c. rw otp refl;
    raise = λ c. rw otp refl;
    value_of-put = λ x c. refl;
    put-put = λ x y c. refl;
    put-same = λ c. refl;
  }

  unk1-IsVariable : IsVariable b boot2_get_unk1 boot2_update_unk1 (dummy 8) (put_dummy 8)
  unfolding boot2_get_unk1 boot2_update_unk1 dummy put_dummy
  unk1-IsVariable = record {
    get = λ c. rw otp refl;
    raise = λ c. rw otp refl;
    value_of-put = λ x c. refl;
    put-put = λ x y c. refl;
    put-same = λ c. refl;
  }

  gen-IsVariable : IsVariable b nand_get_gen nand_update_gen (dummy 10) (put_dummy 10)
  unfolding nand_get_gen nand_update_gen dummy put_dummy
  gen-IsVariable = record {
    get = λ c. rw otp refl;
    raise = λ c. rw otp refl;
    value_of-put = λ x c. refl;
    put-put = λ x y c. refl;
    put-same = λ c. refl;
  }

  select_counter-IsVariable :
      (h : ℕ)
      → (h ≡ 7) ⊎ ((h ≡ 8) ⊎ (h ≡ 10))
      → (f : Getter × Getter) × (select_counter h ≡ some f)
        × IsVariable b (f.0) (f.1) (dummy h) (put_dummy h)
  unfolding select_counter
  select_counter-IsVariable h (inl e) =
      ((boot2_get_version, boot2_update_version), rw e refl, rw e version-IsVariable)
  select_counter-IsVariable h (inr (inl e)) =
      ((boot2_get_unk1, boot2_update_unk1), rw e refl, rw e unk1-IsVariable)
  select_counter-IsVariable h (inr (inr e)) =
      ((nand_get_gen, nand_update_gen), rw e refl, rw e gen-IsVariable)

-- Where the one-time-programmable memory is not set, the owner of the key of the boot2 version, of the
-- first unknown boot2 counter or of the NAND generation sets its value to one that is not below the old
-- one: the loop ends, and the counter and the key have the value, or the counter stays where it is above.
pub set_data-put_dummy :
    (pid h value fuel : ℕ) (r : Keyring) (b : Board) (c : Counters)
    → b.otp_is_set ≡ false
    → (h ≡ 7) ⊎ ((h ≡ 8) ⊎ (h ≡ 10))
    → IsCounterKey pid h value r
    → value < 2 ^ 32
    → dummy h c < 2 ^ 32
    → value < fuel + dummy h c
    → 0 < fuel
    → set_data ipc_success ipc_success fuel pid h value r b c
      ≡ ok (ipc_success, with_metadata h value r, put_dummy h (larger (dummy h c) value) c)
set_data-put_dummy pid h value fuel r b c otp which k small fits enough some_round =
    let (f, counter, v) = select_counter-IsVariable b otp h which in
    set_data-advance pid h value r f k counter fuel b c (put_dummy h (larger (dummy h c) value) c) (
      advance-put b (f.0) (f.1) (dummy h) (put_dummy h) v value small fuel (dummy h c) c refl fits
        enough some_round)
