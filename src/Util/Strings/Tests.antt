-- ===== src/Util/Strings/Tests.antt =====
-- The theorem on operator+ at two strings in a heap of three blocks, whose bytes are their addresses.
use weird_os.Base.{
  ℕ, zero, suc, ◌+◌, ◌<◌, ◌≡◌, refl, arith, inl, inr, List, [], ◌∷◌, length, get_or,
}
use weird_os.Kmalloc.Live.{live}
use weird_os.Kmalloc.Tests.{heap_memory, kheap, three, three-IsHeap, three-Coalesced, three_not_nil}
use weird_os.Util.Strings.{Str, concat}
use weird_os.Util.Strings.Concat.{Concats, concat-Concats}

abbrev low_text : Str
low_text = record { chars = 0x1010; length = 2 }

abbrev high_text : Str
high_text = record { chars = 0x10a4; length = 1 }

abbrev low_chars : List ℕ
low_chars = 0x1010 ∷ 0x1011 ∷ []

abbrev high_chars : List ℕ
high_chars = 0x10a4 ∷ []

low_reads : (i : ℕ) → i < length low_chars → 0x1010 + i ≡ get_or low_chars i 0
low_reads zero l = refl
low_reads (suc zero) l = omega arith
low_reads (suc (suc i)) l = absurd (omega arith)

high_reads : (i : ℕ) → i < length high_chars → 0x10a4 + i ≡ get_or high_chars i 0
high_reads zero l = refl
high_reads (suc i) l = absurd (omega arith)

concat-Concats_example :
    Concats heap_memory 0x1000 0x10c4 three low_text high_text low_chars high_chars
      (concat 4 kheap low_text high_text heap_memory)
unfolding live
concat-Concats_example =
    concat-Concats 4 heap_memory kheap 0x10c4 three low_text high_text low_chars high_chars 16 32
      three-IsHeap three-Coalesced three_not_nil (omega arith)
      (record { size = refl; reads = low_reads }) (record { size = refl; reads = high_reads })
      (inl (refl, refl)) (inr (inl (refl, refl))) (omega arith) (omega arith) (omega arith)
