-- ===== src/Iosc/CounterKey.antt =====
-- `IOSC_SetData` of kernel/source/crypto/iosc.c on the key of a counter.
use star_struck.Base.{
  ℕ, ◌≤◌, ltb, ◌==◌, ◌≡◌, refl, ap, sym, ◌∙◌, Bool, false, Bool-cases, inl, inr, none, some, ok,
  hang, ◌>>=◌, arith, if◌then◌else◌, le→ltb,
}
use star_struck.Keyring.State.{
  Keyring, KeyKind, other, unknown2, rsa4096_rootkey, ipc_success, iosc_einval, is_invalid,
  set_handle,
}
use star_struck.Keyring.Access.{
  Got, get_key_kind, get_key_types, get_key_metadata, set_key_metadata,
}
use star_struck.Iosc.Objects.{owns_key}
use star_struck.Iosc.Counters.{Counters, Board, Getter}
use star_struck.Iosc.SetData.{
  select_counter, advance, persist, move_counter, set_data_inner, set_data, value_or_zero,
  current_value, keyring_const_ng_id,
}

-- A valid key of the kind of a counter, which the process owns; its value in the key store is not above
-- the new one.
pub record IsCounterKey (pid h value : ℕ) (r : Keyring) : Type 0 where
  pub valid : is_invalid h r ≡ false
  pub kind : (r.handles h).kind ≡ record { type = other; subtype = unknown2 }
  pub monotonic : (r.handles h).metadata ≤ value
  pub owner : owns_key pid h r ≡ ipc_success

-- The key store with the new value.
abbrev pub with_metadata : ℕ → ℕ → Keyring → Keyring
with_metadata h value r = set_handle r h (record (r.handles h) { metadata = value })

select_counter-not_ng :
    (h : ℕ) (f : Getter × Getter) → select_counter h ≡ some f → (h == keyring_const_ng_id) ≡ false
unfolding select_counter
select_counter-not_ng h f e = elim (Bool-cases (h == keyring_const_ng_id)) [
  | inl ng ↦ let one : h ≡ 1 = ground (arith, ng) in absurd (cc (sym (ap select_counter one) ∙ e))
  | inr n ↦ n
]

module _ (pid h value : ℕ) (r : Keyring) (f : Getter × Getter) (k : IsCounterKey pid h value r)
    (counter : select_counter h ≡ some f) where
  key_not_root : (h == rsa4096_rootkey) ≡ false
  key_not_root = ground (arith, k.valid)

  key_types :
      (junk : KeyKind) → get_key_types junk h r ≡ record { type = other; subtype = unknown2 }
  unfolding get_key_types get_key_kind
  key_types junk = rw (key_not_root, k.valid) k.kind

  key_value : current_value h r ≡ (r.handles h).metadata
  unfolding current_value get_key_metadata
  key_value =
      let got : Bool → Got ℕ =
        λ b. if b then (iosc_einval, none) else (ipc_success, some (r.handles h).metadata) in
      ap (λ (b : Bool). value_or_zero (got b).1) k.valid

  persist-success :
      (c : Counters)
      → persist h value r (ipc_success, c) ≡ (ipc_success, with_metadata h value r, c)
  unfolding persist set_key_metadata
  persist-success c = rw k.valid refl

  move_counter-advance :
      (fuel : ℕ) (b : Board) (c : Counters)
      → move_counter fuel h value r b c ≡ advance fuel (f.0) (f.1) value b c
  unfolding move_counter
  move_counter-advance fuel b c =
      let not_less : ltb value (current_value h r) ≡ false =
        le→ltb value (current_value h r) (rw key_value k.monotonic) in
      rw (not_less, counter) refl

  set_data_inner-advance :
      (fuel : ℕ) (b : Board) (c : Counters)
      → set_data_inner fuel h value r b c
        ≡ (advance fuel (f.0) (f.1) value b c >>= λ a. ok (persist h value r a))
  unfolding set_data_inner
  set_data_inner-advance fuel b c =
      rw
        (
          select_counter-not_ng h f counter,
          key_types (record { type = 0; subtype = 0 }),
          move_counter-advance fuel b c,
        )
        refl

  -- `IOSC_SetData` of such a key is the loop, and then the last step.
  pub set_data-advance :
      (fuel : ℕ) (b : Board) (c d : Counters)
      → advance fuel (f.0) (f.1) value b c ≡ ok (ipc_success, d)
      → set_data ipc_success ipc_success fuel pid h value r b c
        ≡ ok (ipc_success, with_metadata h value r, d)
  unfolding set_data
  set_data-advance fuel b c d loop =
      rw (set_data_inner-advance fuel b c, k.owner, loop, persist-success d) refl

  pub set_data-hang :
      (fuel : ℕ) (b : Board) (c : Counters)
      → advance fuel (f.0) (f.1) value b c ≡ hang
      → set_data ipc_success ipc_success fuel pid h value r b c ≡ hang
  unfolding set_data
  set_data-hang fuel b c loop = rw (set_data_inner-advance fuel b c, k.owner, loop) refl
