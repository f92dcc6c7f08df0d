-- ===== src/Sstable/DataBlock/Safety.antt =====
-- `DataBlockReader::Get` on any bytes: no read outside the block, no overflow, and an end.
use vroot_kv.Base.{
  ℕ, zero, suc, ◌+◌, ◌-◌, ◌/◌, ◌^◌, ◌≤◌, ◌<◌, ◌≡◌, ◌⊎◌, inl, inr, refl, arith, false, not, ◌||◌,
  ltb, ltb→le, lt→ltb, le→ltb, ◌==◌, Bool-cases, Option, none, some, Option-cases, ok,
}
use vroot_kv.Base.{List, [], ◌∷◌, length, length-drop, take, drop, get_elem?, All, All-drop, ◌++◌}
use vroot_kv.Sstable.DataBlock.Scan.{bytes_at_inside}
use vroot_kv.Base.{if◌then◌else◌}
use native.Mathlib.Decide.{dec_lt}
use vroot_kv.Codec.Bytes.{IsByte, IsBytes, u32, u64}
use vroot_kv.Codec.Fixed.{decode_fixed32, from_le_total}
use vroot_kv.Key.{Key, key_lt, key_le, key_eq}
use vroot_kv.Sstable.DataBlock.Reader.{
  BlockError, DataBlockReader, Header, read_header, need, key_at_offset, restart_at, search_run,
  at_boundary, rebuild, scan_run, get,
}

-- An integer of 32 bits inside the entries.
fixed32_inside :
    (entries : List ℕ) (off : ℕ)
    → IsBytes entries
    → off + 4 ≤ length entries
    → (v : ℕ) × (decode_fixed32 {E = BlockError} (drop off entries) ≡ ok v) × (v < 2 ^ 32)
unfolding decode_fixed32
fixed32_inside entries off bytes inside =
    let (v, e, small) =
      from_le_total {E = BlockError} 4 (drop off entries)
        (omega (arith, inside, length-drop off entries)) (All-drop IsByte off entries bytes) in
    (v, e, omega (arith, small))

-- A header whose fields are so small that no sum of 64 bits wraps.
abbrev Small : Header → Type 0
Small h = (h.nonshared < 2 ^ 32) × (h.vlen < 2 ^ 32)

-- The header of an entry that the check finds to be inside.
header_checked :
    (entries : List ℕ) (off : ℕ)
    → IsBytes entries
    → off + 12 < 2 ^ 32
    → ltb (length entries) (u32 (off + 12)) ≡ false
    → (h : Header) × (read_header entries off ≡ ok h) × Small h
unfolding read_header
header_checked entries off bytes small inside =
    let within = ltb→le (length entries) (u32 (off + 12)) inside in
    let (s, es, _) = fixed32_inside entries off bytes (omega (arith, within, small)) in
    let (n, en, n_small) = fixed32_inside entries (off + 4) bytes (omega (arith, within, small)) in
    let (v, ev, v_small) = fixed32_inside entries (off + 8) bytes (omega (arith, within, small)) in
    (record { shared = s; nonshared = n; vlen = v }, rw (es, en, ev) refl, (n_small, v_small))

-- What the check of an entry's end gives.
entry_inside :
    (entries : List ℕ) (off : ℕ) (h : Header)
    → off + 12 < 2 ^ 32
    → Small h
    → ltb (length entries) (u64 (off + need h)) ≡ false
    → off + need h ≤ length entries
entry_inside entries off h small fields fits =
    let end = ltb→le (length entries) (u64 (off + need h)) fits in
    omega (arith, small, fields.0, fields.1, end)

key_at_offset_total :
    (entries : List ℕ) (off : ℕ)
    → IsBytes entries
    → off + 12 < 2 ^ 32
    → (k : Option Key) × (key_at_offset entries off ≡ ok k)
unfolding key_at_offset
key_at_offset_total entries off bytes small =
    elim (Bool-cases (ltb (length entries) (u32 (off + 12)))) [
      | inl outside ↦ (none, rw outside refl)
      | inr inside ↦
          let (h, e, fields) = header_checked entries off bytes small inside in
          elim (Bool-cases (h.shared == 0)) [
            | inr cut ↦ (none, rw (inside, e, cut) refl)
            | inl whole ↦ elim (Bool-cases (ltb (length entries) (u64 (off + need h)))) [
              | inl long ↦ (none, rw (inside, e, whole, long) refl)
              | inr fits ↦
                  let end = entry_inside entries off h small fields fits in
                  let there = bytes_at_inside entries (off + 12) h.nonshared (omega (arith, end)) in
                  (
                    some (take h.nonshared (drop (off + 12) entries)),
                    rw (inside, e, whole, fits, there) refl,
                  )
            ]
          ]
    ]

-- A restart offset to which 12 can be added in 32 bits.
abbrev pub Short : ℕ → Type 0
Short off = off + 12 < 2 ^ 32

get_elem?-All :
    (offs : List ℕ) (i : ℕ)
    → All Short offs
    → i < length offs
    → (off : ℕ) × (get_elem? offs i ≡ some off) × Short off
get_elem?-All [] i a less = absurd (omega arith)
get_elem?-All (off ∷ offs) zero a less = (off, refl, a.0)
get_elem?-All (off ∷ offs) (suc i) a less = get_elem?-All offs i a.1 (omega arith)

module _ (r : DataBlockReader) (key : Key) (bytes : IsBytes r.entries)
    (short : All Short r.restarts) (few : length r.restarts < 2 ^ 30) where
  restart_at_total :
      (i : ℕ) → i < length r.restarts → (off : ℕ) × (restart_at r key i ≡ ok off) × Short off
  unfolding restart_at
  restart_at_total i less =
      let (off, e, small) = get_elem?-All r.restarts i short less in
      (off, rw (restart_at, e) refl, small)

  search_run_total :
      (rounds lo hi : ℕ)
      → lo ≤ hi
      → hi < length r.restarts
      → hi ≤ lo + rounds
      → (search_run r key rounds lo hi ≡ ok none)
        ⊎ ((m : ℕ) × (search_run r key rounds lo hi ≡ ok (some m)) × (m < length r.restarts))
  unfolding search_run
  search_run_total zero lo hi le less enough =
      inr (lo, rw (le→ltb lo hi (omega (arith, enough))) refl, omega arith)
  search_run_total (suc rounds) lo hi le less enough = elim (dec_lt lo hi) [
    | no met ↦ inr (lo, rw (le→ltb lo hi (omega (arith, met))) refl, omega arith)
    | yes apart ↦
        let mid = (lo + hi + 1) / 2 in
        let (off, e, small) = restart_at_total mid (omega (arith, apart, less)) in
        let (found, ef) = key_at_offset_total r.entries off bytes small in
        let open_range = lt→ltb lo hi apart in
        let no_overflow = lt→ltb (lo + hi + 1) (2 ^ 31) (omega (arith, apart, less, few)) in
        elim (Option-cases found) [
          | inl stop ↦ inl (rw (open_range, no_overflow, e, ef, stop) refl)
          | inr (k, is_key) ↦ elim (Bool-cases (key_le k key)) [
            | inl up ↦
                elim (search_run_total rounds mid hi (omega (arith, apart)) less
                  (omega (arith, apart, enough))) [
                    | inl e' ↦ inl (rw (open_range, no_overflow, e, ef, is_key, up) e')
                    | inr (m, e', m_less) ↦
                        inr (m, rw (open_range, no_overflow, e, ef, is_key, up) e', m_less)
                  ]
            | inr down ↦
                elim (search_run_total rounds lo (mid - 1) (omega (arith, apart))
                  (omega (arith, apart, less)) (omega (arith, apart, enough))) [
                    | inl e' ↦ inl (rw (open_range, no_overflow, e, ef, is_key, down) e')
                    | inr (m, e', m_less) ↦
                        inr (m, rw (open_range, no_overflow, e, ef, is_key, down) e', m_less)
                  ]
          ]
        ]
  ]

  module _ (small : length r.entries + 12 < 2 ^ 32) where
    rebuild_inside :
        (prev : Key) (h : Header) (off : ℕ)
        → off + need h ≤ length r.entries
        → (c : Option Key) × (rebuild r key prev h off ≡ ok c)
    rebuild_inside prev h off inside =
        let delta = take h.nonshared (drop (off + 12) r.entries) in
        (
          if h.shared == 0
              then some delta
              else if ltb (length prev) h.shared
              then none
              else some (take h.shared prev ++ delta),
          rw (bytes_at_inside r.entries (off + 12) h.nonshared (omega (arith, inside))) refl,
        )

    scan_run_total :
        (rounds lo off : ℕ) (prev : Key)
        → length r.entries ≤ off + rounds
        → (v : Option (List ℕ)) × (scan_run r key rounds lo off prev ≡ ok v)
    unfolding scan_run
    scan_run_total zero lo off prev enough =
        let ended : ltb off (length r.entries) ≡ false =
          le→ltb off (length r.entries) (omega (arith, enough)) in
        (none, rw ended refl)
    scan_run_total (suc rounds) lo off prev enough =
        elim (Bool-cases (not (ltb off (length r.entries)) || at_boundary r key lo off)) [
          | inl ended ↦ (none, rw ended refl)
          | inr going ↦
              let before : off < length r.entries = ground arith in
              let near : off + 12 < 2 ^ 32 = omega (arith, before, small) in
              elim (Bool-cases (ltb (length r.entries) (u32 (off + 12)))) [
                | inl outside ↦ (none, rw (going, outside) refl)
                | inr inside ↦
                    let (h, e, fields) = header_checked r.entries off bytes near inside in
                    elim (Bool-cases (ltb (length r.entries) (u64 (off + need h)))) [
                      | inl long ↦ (none, rw (going, inside, e, long) refl)
                      | inr fits ↦
                          let end = entry_inside r.entries off h near fields fits in
                          let (c, built) = rebuild_inside prev h off end in
                          let next : length r.entries ≤ u32 (off + need h) + rounds =
                            omega (arith, end, small, enough) in
                          let value =
                            bytes_at_inside r.entries (off + 12 + h.nonshared) h.vlen
                              (omega (arith, end)) in
                          elim (Option-cases c) [
                            | inl broken ↦ (none, rw (going, inside, e, fits, built, broken) refl)
                            | inr (cur, is_key) ↦ elim (Bool-cases (key_eq cur key)) [
                              | inl same ↦ (
                                some (take h.vlen (drop (off + 12 + h.nonshared) r.entries)),
                                rw (going, inside, e, fits, built, is_key, same, value) refl,
                              )
                              | inr other ↦ elim (Bool-cases (key_lt key cur)) [
                                | inl past ↦ (
                                  none,
                                  rw (going, inside, e, fits, built, is_key, other, past) refl,
                                )
                                | inr onward ↦
                                    let (v, e') =
                                      scan_run_total rounds lo (u32 (off + need h)) cur next in
                                    (
                                      v,
                                      rw (going, inside, e, fits, built, is_key, other, onward) e',
                                    )
                              ]
                            ]
                          ]
                    ]
              ]
        ]

    -- Whatever the bytes of the entries and whatever the restart offsets, of which there are fewer than 2^30, as
    -- long as neither the end of the entries nor a restart offset is so near to 2^32 that adding 12 to it wraps,
    -- `Get` returns for every key, with a value or the answer that there is none: both loops end within the rounds
    -- that they are given, no `int` sum overflows, and no restart, header, key or value is read outside the
    -- block.
    pub get_total : (v : Option (List ℕ)) × (get r key ≡ ok v)
    unfolding get
    get_total = elim (Bool-cases (length r.restarts == 0)) [
      | inl empty ↦ (none, rw empty refl)
      | inr some_restart ↦
          let count : 0 < length r.restarts = ground arith in
          elim (search_run_total (length r.restarts) 0 (length r.restarts - 1) (omega arith)
            (omega (arith, count)) (omega arith)) [
              | inl stop ↦ (none, rw (some_restart, stop) refl)
              | inr (m, found, m_less) ↦
                  let (off, e, near) = restart_at_total m m_less in
                  let (v, scanned) = scan_run_total (length r.entries) m off [] (omega arith) in
                  (v, rw (some_restart, found, e) scanned)
            ]
    ]
