-- ===== src/Iosc/Unread.antt =====
-- Calls of `IOSC_SetData` in kernel/source/crypto/iosc.c that do not move the counter.
use star_struck.Base.{
  ℕ, zero, suc, ◌^◌, ◌≤◌, ◌<◌, ltb, ◌≡◌, refl, true, false, some, pos, negsuc, to_u32, add_u32, ok,
  hang, arith, lt→ltb, le→ltb,
}
use star_struck.Keyring.State.{Keyring, ipc_success}
use star_struck.Seeprom.Seed.{to_s32}
use star_struck.Iosc.Counters.{Counters, Board, Getter, boot2_get_unk2, boot2_update_unk2}
use star_struck.Iosc.SetData.{select_counter, advance, set_data}
use star_struck.Iosc.CounterKey.{IsCounterKey, with_metadata, set_data-advance, set_data-hang}
use star_struck.Iosc.Advanced.{to_u32-to_s32}

module _ (b : Board) (otp : b.otp_is_set ≡ false) (value : ℕ) (small : value < 2 ^ 32) where
  boot2_get_unk2-dummy : (c : Counters) → boot2_get_unk2 b c ≡ (to_s32 c.dummy_unk1, c)
  unfolding boot2_get_unk2
  boot2_get_unk2-dummy c = rw otp refl

  boot2_update_unk2-dummy :
      (c : Counters)
      → boot2_update_unk2 b c ≡ (pos 0, record c { dummy_unk2 = add_u32 c.dummy_unk2 1 })
  unfolding boot2_update_unk2
  boot2_update_unk2-dummy c = rw otp refl

  -- A round leaves the variable that the next one reads.
  advance-stuck :
      (fuel : ℕ) (c : Counters)
      → c.dummy_unk1 < value
      → advance fuel boot2_get_unk2 boot2_update_unk2 value b c ≡ hang
  unfolding advance
  advance-stuck zero c less = refl
  advance-stuck (suc fuel) c less =
      let test : ltb c.dummy_unk1 value ≡ true = lt→ltb c.dummy_unk1 value less in
      let rest = advance-stuck fuel (record c { dummy_unk2 = add_u32 c.dummy_unk2 1 }) less in
      rw
        (
          boot2_get_unk2-dummy c,
          boot2_update_unk2-dummy c,
          to_u32-to_s32 c.dummy_unk1 (omega (arith, less, small)),
          test,
        )
        rest

-- Where the one-time-programmable memory is not set, the second unknown boot2 counter is read from the
-- variable of the first: a call that is to raise the counter above that variable never returns.
pub set_data-unk2 :
    (pid value fuel : ℕ) (r : Keyring) (b : Board) (c : Counters)
    → b.otp_is_set ≡ false
    → IsCounterKey pid 9 value r
    → value < 2 ^ 32
    → c.dummy_unk1 < value
    → set_data ipc_success ipc_success fuel pid 9 value r b c ≡ hang
unfolding select_counter
set_data-unk2 pid value fuel r b c otp k small less =
    set_data-hang pid 9 value r (boot2_get_unk2, boot2_update_unk2) k refl fuel b c
      (advance-stuck b otp value small fuel c less)

-- An error code is a large number for the loop.
advance-unread :
    (fuel n value : ℕ) (getting updating : Getter) (b : Board) (c d : Counters)
    → getting b c ≡ (negsuc n, d)
    → n < 2 ^ 31
    → value ≤ 2 ^ 31
    → advance (suc fuel) getting updating value b c ≡ ok (ipc_success, d)
unfolding advance
advance-unread fuel n value getting updating b c d got small below =
    let test : ltb (to_u32 (negsuc n)) value ≡ false =
      le→ltb (to_u32 (negsuc n)) value (omega (arith, small, below)) in
    rw (got, test) refl

-- Where the counter of a key cannot be read, and the read returns a negative code, `IOSC_SetData` with
-- a value of at most 2^31 reports success and gives the key the value; the counter is not raised.
pub set_data-unread :
    (pid h value fuel n : ℕ) (r : Keyring) (f : Getter × Getter) (b : Board) (c d : Counters)
    → IsCounterKey pid h value r
    → select_counter h ≡ some f
    → (f.0) b c ≡ (negsuc n, d)
    → n < 2 ^ 31
    → value ≤ 2 ^ 31
    → set_data ipc_success ipc_success (suc fuel) pid h value r b c
      ≡ ok (ipc_success, with_metadata h value r, d)
set_data-unread pid h value fuel n r f b c d k counter got small below =
    set_data-advance pid h value r f k counter (suc fuel) b c d
      (advance-unread fuel n value (f.0) (f.1) b c d got small below)
