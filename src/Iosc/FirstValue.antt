-- ===== src/Iosc/FirstValue.antt =====
-- `IOSC_SetData` of kernel/source/crypto/iosc.c behind `IOSC_Init`.
use star_struck.Base.{
  ℕ, ◌+◌, ◌≤◌, ◌<◌, ◌^◌, ◌≡◌, refl, ap, ◌∙◌, ◌⊎◌, inl, inr, true, false, List, to_u32, ok, arith,
  some, ltb, if◌then◌else◌,
}
use star_struck.Keyring.State.{Keyring, KeyKind, ipc_success}
use star_struck.Keyring.Alloc.{get_key_index_fit_size}
use star_struck.Keyring.Access.{
  set_key_metadata, set_key_zeroes_if_any_private, set_key_owner_process, get_key_owner_process,
}
use star_struck.Keyring.Bytes.{set_key}
use star_struck.Seeprom.Seed.{to_s32}
use star_struck.Iosc.Counters.{
  Counters, Board, boot2_get_version, boot2_get_unk1, boot2_get_unk2, nand_get_gen,
}
use star_struck.Iosc.Objects.{owns_key}
use star_struck.Iosc.SetData.{set_data}
use star_struck.Iosc.CounterKey.{IsCounterKey, with_metadata}
use star_struck.Iosc.Advanced.{dummy, put_dummy, larger, to_u32-to_s32, set_data-put_dummy}
use star_struck.Iosc.Init.{iosc_init, get_korean_common_key}
use star_struck.Iosc.Started.{
  ring, ring_before, counters, run_ring, run_counters, iosc_init-success, ring-IsStarted,
}

module _ (stale : KeyKind) (word : ℕ → ℕ) (junk : List ℕ) (b : Board) (c : Counters)
    (r : Keyring) where
  -- The counters behind the read of the Korean key.
  early : Counters
  early = (get_korean_common_key junk b c).1

  ring-metadata :
      ((ring stale word junk b c r).handles 7).metadata ≡ to_u32 (boot2_get_version b early).0
  unfolding early ring run_ring iosc_init get_key_index_fit_size set_key_metadata set_key
      set_key_zeroes_if_any_private set_key_owner_process
  ring-metadata = refl

  counters-last :
      counters stale word junk b c r
      ≡ (nand_get_gen b (boot2_get_unk2 b (boot2_get_unk1 b (boot2_get_version b early).1).1).1).1
  unfolding early counters run_counters iosc_init get_key_index_fit_size set_key_metadata set_key
      set_key_zeroes_if_any_private set_key_owner_process
  counters-last = refl

get_key_owner_process-started :
    (g : Keyring)
    → (g.handles 7).is_used ≡ true
    → (g.handles 7).owner_process ≡ 3
    → get_key_owner_process 7 g ≡ (ipc_success, some 3)
unfolding get_key_owner_process
get_key_owner_process-started g used owner = rw (used, owner) refl

started_owner :
    (g : Keyring) (pid : ℕ)
    → (g.handles 7).is_used ≡ true
    → (g.handles 7).owner_process ≡ 3
    → (pid ≡ 0) ⊎ (pid ≡ 1)
    → owns_key pid 7 g ≡ ipc_success
unfolding owns_key
started_owner g pid used owner who =
    let got : get_key_owner_process 7 g ≡ (ipc_success, some 3) =
      get_key_owner_process-started g used owner in
    elim who [ inl e ↦ rw (got, e) refl | inr e ↦ rw (got, e) refl ]

module _ (b : Board) (otp : b.otp_is_set ≡ false) where
  early-same :
      (stale : KeyKind) (word : ℕ → ℕ) (junk : List ℕ) (c : Counters) (r : Keyring)
      → early stale word junk b c r ≡ c
  unfolding early get_korean_common_key
  early-same stale word junk c r = rw otp refl

  version-dummy : (c : Counters) → boot2_get_version b c ≡ (to_s32 c.dummy_version, c)
  unfolding boot2_get_version
  version-dummy c = rw otp refl

  unk1-same : (c : Counters) → (boot2_get_unk1 b c).1 ≡ c
  unfolding boot2_get_unk1
  unk1-same c = rw otp refl

  unk2-same : (c : Counters) → (boot2_get_unk2 b c).1 ≡ c
  unfolding boot2_get_unk2
  unk2-same c = rw otp refl

  gen-same : (c : Counters) → (nand_get_gen b c).1 ≡ c
  unfolding nand_get_gen
  gen-same c = rw otp refl

  module _ (stale : KeyKind) (word : ℕ → ℕ) (junk : List ℕ) (c : Counters) (r : Keyring) where
    counters-same : counters stale word junk b c r ≡ c
    counters-same =
        let e = early stale word junk b c r in
        counters-last stale word junk b c r
        ∙ rw (version-dummy e, unk1-same e, unk2-same e, gen-same e)
            (early-same stale word junk c r)

    metadata-version :
        c.dummy_version < 2 ^ 32
        → ((ring stale word junk b c r).handles 7).metadata ≡ c.dummy_version
    metadata-version fits =
        ring-metadata stale word junk b c r
        ∙ rw (early-same stale word junk c r, version-dummy c) (to_u32-to_s32 c.dummy_version fits)

    version-IsCounterKey :
        (pid value : ℕ)
        → (pid ≡ 0) ⊎ (pid ≡ 1)
        → c.dummy_version < 2 ^ 32
        → c.dummy_version ≤ value
        → IsCounterKey pid 7 value (ring stale word junk b c r)
    version-IsCounterKey pid value who fits above = record {
      valid = rw (ring_before stale word junk b c r 7 (omega arith)) refl;
      kind = (ring-IsStarted stale word junk b c r).kind;
      monotonic = rw (metadata-version fits) above;
      owner =
          started_owner (ring stale word junk b c r) pid
            (ring_before stale word junk b c r 7 (omega arith))
            (ring-IsStarted stale word junk b c r).owner who;
    }

version_put :
    (value : ℕ) (c : Counters)
    → c.dummy_version ≤ value
    → put_dummy 7 (larger (dummy 7 c) value) c ≡ record c { dummy_version = value }
unfolding put_dummy dummy larger
version_put value c above =
    let most : (if ltb c.dummy_version value then value else c.dummy_version) ≡ value =
      ground (arith, above) in
    ap (λ (x : ℕ). record c { dummy_version = x }) most

dummy_version-dummy : (c : Counters) → dummy 7 c ≡ c.dummy_version
unfolding dummy
dummy_version-dummy c = refl

-- Where the one-time-programmable memory is not set, the processes 0 and 1 may, behind `IOSC_Init`, set
-- the key of the boot2 version to any value that is not below the counter, which then has the value.
pub iosc_init-set_data :
    (stale : KeyKind) (word : ℕ → ℕ) (junk : List ℕ) (b : Board) (c : Counters) (r : Keyring)
    (pid value fuel : ℕ)
    → b.otp_is_set ≡ false
    → (pid ≡ 0) ⊎ (pid ≡ 1)
    → c.dummy_version ≤ value
    → value < 2 ^ 32
    → value < fuel + c.dummy_version
    → 0 < fuel
    → (g : Keyring) × (iosc_init stale word junk b c r ≡ ok (ipc_success, g, c))
      × (set_data ipc_success ipc_success fuel pid 7 value g b c
          ≡ ok (ipc_success, with_metadata 7 value g, record c { dummy_version = value }))
iosc_init-set_data stale word junk b c r pid value fuel otp who above small enough some_round =
    let fits : c.dummy_version < 2 ^ 32 = omega (arith, above, small) in
    let g = ring stale word junk b c r in
    (
      g,
      iosc_init-success stale word junk b c r
          ∙ ap (λ (d : Counters). ok (ipc_success, g, d)) (counters-same b otp stale word junk c r),
      set_data-put_dummy pid 7 value fuel g b c otp (inl refl)
            (version-IsCounterKey b otp stale word junk c r pid value who fits above) small
            (rw (dummy_version-dummy c) fits) (rw (dummy_version-dummy c) enough) some_round
          ∙ ap (λ (d : Counters). ok (ipc_success, with_metadata 7 value g, d))
              (version_put value c above),
    )
