-- ===== src/Tests/Sstable.antt =====
-- A block of three entries in runs of two, a footer, and blocks that are refused.
use vroot_kv.Base.{
  ℕ, ◌<◌, ◌≤◌, ◌≡◌, ◌⊎◌, refl, arith, List, [], ◌∷◌, ◌++◌, length, length-append, drop, ◌-◌,
}
use vroot_kv.Codec.Bytes.{IsBytes}
use vroot_kv.Base.{ok, err, ◌>>=◌}
use vroot_kv.Key.{Key, key_lt}
use vroot_kv.Sstable.Format.{BlockHandle, SstableFooter, truncated_footer, table_magic}
use vroot_kv.Sstable.Format.{encode_footer, decode_footer}
use vroot_kv.Sstable.Format.RoundTrip.{
  IsHandle, IsFooter, decode_footer-encode_footer, decode_footer_total,
}
use vroot_kv.Sstable.DataBlock.Builder.{not_increasing}
use vroot_kv.Sstable.DataBlock.Reader.{DataBlockReader, new_reader, get}
use vroot_kv.Sstable.DataBlock.Layout.{Run, lookup, IsSorted}
use vroot_kv.Sstable.DataBlock.Build.{build}
use vroot_kv.Sstable.DataBlock.Correct.{IsBlockInput, build-get}
use vroot_kv.Sstable.DataBlock.Guards.{behind_empty, build_rejects}
use vroot_kv.Sstable.DataBlock.Safety.{get_total}
use vroot_kv.Base.{Option, none, some}
use vroot_kv.Codec.Varint.{put_varint32, get_varint32}
use vroot_kv.Sstable.Varint.{
  append_varint32, fill_varint, take_varint32, scan_varint, varint_copies_agree,
}
use vroot_kv.Sstable.Format.RoundTrip.{handle_bytes, length-handle_bytes}
use vroot_kv.Sstable.IndexBlock.{IndexError, IndexBlockReader, new_index_reader, find}
use vroot_kv.Sstable.IndexBlock.Layout.{IndexEntry, encode_entry, encode_index}
use vroot_kv.Sstable.IndexBlock.Search.{route}
use vroot_kv.Sstable.IndexBlock.Correct.{IsIndexInput, build_index, build_index-find}
use vroot_kv.Sstable.IndexBlock.Safety.{new_index_reader-find_total}

abbrev three_entries : Run
three_entries = (1 ∷ 2 ∷ [], 7 ∷ []) ∷ (1 ∷ 3 ∷ [], []) ∷ (1 ∷ 3 ∷ 4 ∷ [], 9 ∷ 9 ∷ []) ∷ []

three_entries-IsSorted : IsSorted three_entries
unfolding key_lt
three_entries-IsSorted = (refl, (refl, tt))

three_entries-IsBlockInput : IsBlockInput three_entries
three_entries-IsBlockInput = record {
  sorted = three_entries-IsSorted;
  entries_fit =
      ((omega arith, omega arith), ((omega arith, omega arith), ((omega arith, omega arith), tt)));
  fits = omega arith;
}

build-get_example :
    (block : List ℕ) × (build 2 three_entries ≡ ok block)
    × ((key : Key) → (new_reader block >>= λ r. get r key) ≡ ok (lookup key three_entries))
build-get_example = build-get 2 three_entries three_entries-IsBlockInput

abbrev swapped : Run
swapped = (2 ∷ [], []) ∷ (1 ∷ [], []) ∷ []

swapped_is_refused : IsSorted (behind_empty swapped) → ⊥
unfolding key_lt
swapped_is_refused (e, a) = absurd (cc e)

build_rejects_example : build 16 swapped ≡ err not_increasing
build_rejects_example = build_rejects 16 swapped swapped_is_refused

-- A trailer that names one restart offset, and no offset before it.
abbrev one_restart : List ℕ
one_restart = 1 ∷ 0 ∷ 0 ∷ 0 ∷ []

abbrev one_byte : List ℕ
one_byte = 1 ∷ []

-- The only entry claims a key of 2^24 bytes, and the second restart is beyond the end.
abbrev corrupt_reader : DataBlockReader
corrupt_reader = record {
  entries = 0 ∷ 0 ∷ 0 ∷ 0 ∷ 0 ∷ 0 ∷ 0 ∷ 1 ∷ 0 ∷ 0 ∷ 0 ∷ 0 ∷ 7 ∷ [];
  restarts = 0 ∷ 99 ∷ [];
}

corrupt_reader-IsBytes : IsBytes corrupt_reader.entries
corrupt_reader-IsBytes = (
  omega arith,
  (
    omega arith,
    (
      omega arith,
      (
        omega arith,
        (
          omega arith,
          (
            omega arith,
            (
              omega arith,
              (
                omega arith,
                (omega arith, (omega arith, (omega arith, (omega arith, (omega arith, tt))))),
              ),
            ),
          ),
        ),
      ),
    ),
  ),
)

get_total_example : (v : Option (List ℕ)) × (get corrupt_reader (7 ∷ []) ≡ ok v)
get_total_example =
    get_total corrupt_reader (7 ∷ []) corrupt_reader-IsBytes (omega arith, (omega arith, tt))
      (omega arith) (omega arith)

abbrev first_key : Key
first_key = 1 ∷ 2 ∷ []

abbrev second_key : Key
second_key = 1 ∷ 3 ∷ []

abbrev a_handle : BlockHandle
a_handle = record { offset = 4096; size = 300 }

a_handle-IsHandle : IsHandle a_handle
a_handle-IsHandle = record { offset_fits = omega arith; size_fits = omega arith }

abbrev a_footer : SstableFooter
a_footer = record { filter_handle = a_handle; index_handle = a_handle; magic = table_magic }

a_footer-IsFooter : IsFooter a_footer
a_footer-IsFooter = record {
  filter_fits = a_handle-IsHandle;
  index_fits = a_handle-IsHandle;
  magic_fits = omega arith;
}

decode_footer-encode_footer_example :
    decode_footer
      (drop (length (encode_footer a_footer (5 ∷ [])) - 40) (encode_footer a_footer (5 ∷ [])))
    ≡ ok (a_footer, [])
decode_footer-encode_footer_example =
    decode_footer-encode_footer a_footer (5 ∷ []) a_footer-IsFooter

decode_footer_total_example :
    ((length one_byte < 40) × (decode_footer one_byte ≡ err truncated_footer))
    ⊎ ((40 ≤ length one_byte)
        × ((f : SstableFooter) × (decode_footer one_byte ≡ ok (f, drop 40 one_byte))))
decode_footer_total_example = decode_footer_total one_byte

-- An index of two blocks.
abbrev first_handle : BlockHandle
first_handle = record { offset = 0; size = 100 }

abbrev second_handle : BlockHandle
second_handle = record { offset = 100; size = 50 }

abbrev two_dividers : List IndexEntry
two_dividers = (97 ∷ [], first_handle) ∷ (99 ∷ 1 ∷ [], second_handle) ∷ []

two_dividers-IsIndexInput : IsIndexInput two_dividers
unfolding encode_index encode_entry put_varint32
two_dividers-IsIndexInput = record {
  divided = (unfold key_lt in refl, tt);
  entries_fit = (
    record {
      key_fits = omega arith;
      handle_fits = record { offset_fits = omega arith; size_fits = omega arith };
    },
    (
      record {
        key_fits = omega arith;
        handle_fits = record { offset_fits = omega arith; size_fits = omega arith };
      },
      tt,
    ),
  );
  fits = omega (
    arith,
    length-append (handle_bytes first_handle) (2 ∷ 99 ∷ 1 ∷ (handle_bytes second_handle ++ [])),
    length-append (handle_bytes second_handle) [],
    length-handle_bytes first_handle,
    length-handle_bytes second_handle,
  );
}

-- A key between the dividers is in the first block, and one before them in none.
route-between : (route (98 ∷ []) two_dividers ≡ some first_handle) × (route [] two_dividers ≡ none)
unfolding route key_lt
route-between = (refl, refl)

build_index-find_example :
    (bytes : List ℕ) × (build_index two_dividers ≡ ok bytes)
    × ((key : Key) → (new_index_reader bytes >>= λ r. find r key) ≡ ok (route key two_dividers))
build_index-find_example = build_index-find two_dividers two_dividers-IsIndexInput

new_index_reader-find_total_example :
    ((e : IndexError) × (new_index_reader (1 ∷ 0 ∷ 0 ∷ 0 ∷ 0 ∷ 1 ∷ 0 ∷ 0 ∷ 0 ∷ []) ≡ err e))
    ⊎ ((r : IndexBlockReader) × (new_index_reader (1 ∷ 0 ∷ 0 ∷ 0 ∷ 0 ∷ 1 ∷ 0 ∷ 0 ∷ 0 ∷ []) ≡ ok r)
        × ((key : Key) → (found : Option BlockHandle) × (find r key ≡ ok found)))
new_index_reader-find_total_example =
    new_index_reader-find_total (1 ∷ 0 ∷ 0 ∷ 0 ∷ 0 ∷ 1 ∷ 0 ∷ 0 ∷ 0 ∷ []) (omega arith)

varint_copies_agree_example :
    (append_varint32 (5 ∷ []) 300 ≡ some (put_varint32 (5 ∷ []) 300))
    × (take_varint32 (172 ∷ 2 ∷ 9 ∷ []) ≡ get_varint32 (172 ∷ 2 ∷ 9 ∷ []))
varint_copies_agree_example = varint_copies_agree (5 ∷ []) (172 ∷ 2 ∷ 9 ∷ []) 300 (omega arith)

-- 300 takes two bytes, and comes back.
three_hundred :
    (append_varint32 [] 300 ≡ some (172 ∷ 2 ∷ []))
    × (take_varint32 (172 ∷ 2 ∷ 9 ∷ []) ≡ some (300, 9 ∷ []))
unfolding append_varint32 fill_varint take_varint32 scan_varint
three_hundred = (refl, refl)
