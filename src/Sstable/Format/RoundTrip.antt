-- ===== src/Sstable/Format/RoundTrip.antt =====
-- Handles and footers decode to what was encoded, and the decoders' errors.
use vroot_kv.Base.{
  ℕ, ◌-◌, ◌^◌, ◌≤◌, ◌<◌, ◌≡◌, ◌⊎◌, refl, sym, ap, ◌∙◌, arith, List, [], ◌++◌, append_assoc,
  append-nil,
}
use vroot_kv.Base.{length, take, drop, length-append, length-take, length-drop, drop-append}
use vroot_kv.Base.{
  ltb, ltb→lt, drop_all, take_all, ltb→le, le→ltb, Bool-cases, inl, inr, false, ok, err,
}
use vroot_kv.Codec.Fixed.{to_le, from_le, length-to_le, from_le-to_le, from_le_inside}
use vroot_kv.Sstable.Format.{BlockHandle, SstableFooter, FormatError, truncated_footer}
use vroot_kv.Sstable.Format.{encode_handle, decode_handle, encode_footer, decode_footer}

-- Offset and size are `uint64_t`s.
pub record IsHandle (h : BlockHandle) : Type 0 where
  pub offset_fits : h.offset < 2 ^ 64
  pub size_fits : h.size < 2 ^ 64

pub record IsFooter (f : SstableFooter) : Type 0 where
  pub filter_fits : IsHandle f.filter_handle
  pub index_fits : IsHandle f.index_handle
  pub magic_fits : f.magic < 2 ^ 64

pub handle_bytes : BlockHandle → List ℕ
handle_bytes h = to_le 8 h.offset ++ to_le 8 h.size

pub length-handle_bytes : (h : BlockHandle) → length (handle_bytes h) ≡ 16
unfolding handle_bytes
length-handle_bytes h = omega (
  arith,
  length-append (to_le 8 h.offset) (to_le 8 h.size),
  length-to_le 8 h.offset,
  length-to_le 8 h.size,
)

pub encode_handle_lem :
    (h : BlockHandle) (dst : List ℕ) → encode_handle h dst ≡ dst ++ handle_bytes h
unfolding encode_handle handle_bytes
encode_handle_lem h dst = refl

-- `DecodeFrom` reads back the handle of two 64-bit numbers that `EncodeTo` wrote, and leaves what follows
-- it.
pub decode_handle-encode_handle :
    (h : BlockHandle) (rest : List ℕ)
    → IsHandle h
    → decode_handle (encode_handle h [] ++ rest) ≡ ok (h, rest)
unfolding decode_handle handle_bytes
decode_handle-encode_handle h rest v =
    rw
      (
        encode_handle_lem h [],
        long,
        drop-append 16 (handle_bytes h) rest (length-handle_bytes h),
        append_assoc (to_le 8 h.offset) (to_le 8 h.size) rest,
        from_le-to_le {E = FormatError} 8 h.offset (to_le 8 h.size ++ rest)
            (omega (arith, v.offset_fits)),
        drop-append 8 (to_le 8 h.offset) (to_le 8 h.size ++ rest) (length-to_le 8 h.offset),
        from_le-to_le {E = FormatError} 8 h.size rest (omega (arith, v.size_fits)),
      )
      refl
  where
    long : ltb (length (handle_bytes h ++ rest)) 16 ≡ false
    long = le→ltb _ 16 (omega (arith, length-append (handle_bytes h) rest, length-handle_bytes h))

-- A handle is decoded from any 16 bytes; fewer are refused.
pub decode_handle_total :
    (input : List ℕ)
    → 16 ≤ length input
    → (h : BlockHandle) × (decode_handle input ≡ ok (h, drop 16 input))
unfolding decode_handle
decode_handle_total input long =
    let (o, eo) = from_le_inside {E = FormatError} 8 input (omega arith) in
    let (s, es) =
      from_le_inside {E = FormatError} 8 (drop 8 input) (omega (arith, length-drop 8 input)) in
    (record { offset = o; size = s }, rw (le→ltb (length input) 16 long, eo, es) refl)

-- `DecodeFrom` of the footer needs 40 bytes and no more: with fewer it throws, and with them it
-- returns a footer and drops them. The check for a missing magic number never fires.
pub decode_footer_total :
    (input : List ℕ)
    → ((length input < 40) × (decode_footer input ≡ err truncated_footer))
      ⊎ ((40 ≤ length input)
          × ((f : SstableFooter) × (decode_footer input ≡ ok (f, drop 40 input))))
unfolding decode_footer
decode_footer_total input = elim (Bool-cases (ltb (length input) 40)) [
  | inl short ↦ inl (ltb→lt _ 40 short, rw short refl)
  | inr long ↦
      let fits : 40 ≤ length input = ltb→le _ 40 long in
      let (f, ef) = decode_handle_total (take 40 input) (omega (arith, length-take 40 input)) in
      let (i, ei) =
        decode_handle_total (drop 16 (take 40 input))
          (omega (arith, length-take 40 input, length-drop 16 (take 40 input))) in
      let (m, em) = from_le_inside {E = FormatError} 8 (drop 16 (drop 16 (take 40 input))) (
        omega (
          arith,
          length-take 40 input,
          length-drop 16 (take 40 input),
          length-drop 16 (drop 16 (take 40 input)),
        )) in
      inr (
        fits,
        (
          record { filter_handle = f; index_handle = i; magic = m },
          rw
              (
                long,
                ef,
                ei,
                le→ltb (length (drop 16 (drop 16 (take 40 input)))) 8 (
                    omega (
                      arith,
                      length-take 40 input,
                      length-drop 16 (take 40 input),
                      length-drop 16 (drop 16 (take 40 input)),
                    )),
                em,
              )
              refl,
        ),
      )
]

pub footer_bytes : SstableFooter → List ℕ
footer_bytes f = handle_bytes f.filter_handle ++ (handle_bytes f.index_handle ++ to_le 8 f.magic)

pub length-footer_bytes : (f : SstableFooter) → length (footer_bytes f) ≡ 40
unfolding footer_bytes
length-footer_bytes f = omega (
  arith,
  length-append (handle_bytes f.filter_handle) (handle_bytes f.index_handle ++ to_le 8 f.magic),
  length-append (handle_bytes f.index_handle) (to_le 8 f.magic),
  length-handle_bytes f.filter_handle,
  length-handle_bytes f.index_handle,
  length-to_le 8 f.magic,
)

pub encode_footer_lem :
    (f : SstableFooter) (dst : List ℕ) → encode_footer f dst ≡ dst ++ footer_bytes f
unfolding encode_footer footer_bytes handle_bytes
encode_footer_lem f dst = simp append_assoc

read_handle :
    (h : BlockHandle) (rest : List ℕ)
    → IsHandle h
    → decode_handle (handle_bytes h ++ rest) ≡ ok (h, rest)
read_handle h rest v =
    ap (λ bs. decode_handle (bs ++ rest)) (sym (encode_handle_lem h []))
    ∙ decode_handle-encode_handle h rest v

read_footer : (f : SstableFooter) → IsFooter f → decode_footer (footer_bytes f) ≡ ok (f, [])
unfolding decode_footer
read_footer f v =
    rw
      (
        le→ltb (length (footer_bytes f)) 40 (omega (arith, length-footer_bytes f)),
        take_all 40 (footer_bytes f) (omega (arith, length-footer_bytes f)),
        filter_read,
        read_handle f.index_handle (to_le 8 f.magic) v.index_fits,
        le→ltb (length (to_le 8 f.magic)) 8 (omega (arith, length-to_le 8 f.magic)),
        magic_read,
        drop_all 40 (footer_bytes f) (omega (arith, length-footer_bytes f)),
      )
      refl
  where
    filter_read :
        decode_handle (footer_bytes f)
        ≡ ok (f.filter_handle, handle_bytes f.index_handle ++ to_le 8 f.magic)
    filter_read = unfold footer_bytes in read_handle f.filter_handle _ v.filter_fits

    magic_read : from_le {E = FormatError} 8 (to_le 8 f.magic) ≡ ok f.magic
    magic_read =
        ap (from_le 8) (sym (append-nil (to_le 8 f.magic)))
        ∙ from_le-to_le {E = FormatError} 8 f.magic [] (omega (arith, v.magic_fits))

-- The footer of 64-bit numbers that `EncodeTo` wrote behind anything is read back from the last 40
-- bytes, whatever its magic number is.
pub decode_footer-encode_footer :
    (f : SstableFooter) (dst : List ℕ)
    → IsFooter f
    → decode_footer (drop (length (encode_footer f dst) - 40) (encode_footer f dst)) ≡ ok (f, [])
decode_footer-encode_footer f dst v = ap decode_footer last_40 ∙ read_footer f v
  where
    last_40 : drop (length (encode_footer f dst) - 40) (encode_footer f dst) ≡ footer_bytes f
    last_40 = rw (encode_footer_lem f dst) (
        drop-append _ dst (footer_bytes f)
          (omega (arith, length-append dst (footer_bytes f), length-footer_bytes f)))
