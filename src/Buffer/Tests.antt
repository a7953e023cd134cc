-- ===== src/Buffer/Tests.antt =====
-- Runs of the buffers on eight bytes of memory.
use libkngin.Base.{◌≡◌, refl, [], ◌∷◌, map, arith}
use libkngin.Base.Memory.{Memory, load}
use libkngin.Base.Result.{ok}
use libkngin.Buffer.Out.{OutBuffer, out_buffer}
use libkngin.Buffer.In.{InBuffer, IsValid, written}
use libkngin.Buffer.In
use libkngin.Buffer.Hex.{dump, unhex, unhex-dump}
use libkngin.Buffer.RoundTrip.{Fields, AreWords, write_all, read_all, read_all-write_all}

-- Every byte is 16.
abbrev memory : Memory
memory a = 16

abbrev source : OutBuffer
source = out_buffer 8 4

abbrev target : InBuffer
target = In.in_buffer 16 4

target-IsValid : IsValid target
target-IsValid = record { fits = omega arith; within = omega arith }

dump_run : dump memory 8 2 ≡ b'1' ∷ b'0' ∷ b'1' ∷ b'0' ∷ 0 ∷ []
unfolding dump
dump_run = refl

unhex-dump_example : unhex (dump memory 8 2) ≡ load memory 8 2
unfolding load
unhex-dump_example = unhex-dump memory 8 2 (omega arith, (omega arith, tt))

-- A field of one byte and one of two.
abbrev fields : Fields
fields = (1, 200) ∷ (2, 513) ∷ []

read_all-write_all_example :
    (m' : Memory) × (b : InBuffer) × (q : OutBuffer) × (write_all memory target fields ≡ ok (m', b))
    × (read_all m' (out_buffer 16 b.valid) (map (λ f. f.0) fields) ≡ ok (map (λ f. f.1) fields, q))
    × (q.size ≡ 0)
unfolding libkngin.Buffer.RoundTrip.total
read_all-write_all_example =
    read_all-write_all memory 16 4 fields (omega arith)
      (omega arith, omega arith, (omega arith, omega arith, tt)) (omega arith)
