-- ===== src/Buffer/Tests.antt =====
-- The buffer's theorems at inputs that meet their hypotheses, and the cases of tests/test_buffer.c.
use sockify.Prelude.{◌≡◌, refl, List, [], ◌∷◌, some, none, false, arith}
use sockify.Buffer.{
  Buffer, init, put_byte, write_loop, write, peek_loop, peek, wrap_loop, consume, read, readable,
  writable, clear,
}
use sockify.Buffer.Inv.{IsValid}
use sockify.Buffer.Window.{contents}
use sockify.Buffer.Write.{contents-write}
use sockify.Buffer.Read.{read_lem}
use sockify.Buffer.Refine.{run, run_refines}
use sockify.Buffer.Queue
use sockify.Buffer.Queue.{
  write_op, read_op, peek_op, consume_op, clear_op, readable_op, writable_op, Op,
}
use sockify.Status.{ok, err_invalid, err_overflow}

-- "ef" round the end of a storage of three bytes.
abbrev wrapped : Buffer
wrapped = record {
  storage = 102 ∷ 0 ∷ 101 ∷ [];
  capacity = 3;
  read_pos = 2;
  write_pos = 1;
  len = 2;
  high_water = 2;
  low_water = 1;
}

abbrev script : List Op
script =
    peek_op 1
    ∷ readable_op
    ∷ writable_op
    ∷ write_op (7 ∷ 8 ∷ [])
    ∷ read_op 2
    ∷ write_op (9 ∷ [])
    ∷ read_op 5
    ∷ read_op 1
    ∷ clear_op
    ∷ consume_op 1
    ∷ []

wrapped-IsValid : IsValid wrapped
wrapped-IsValid = omega arith

run-wrapped :
    run wrapped script
    ≡ (ok, 1, 101 ∷ [])
      ∷ (ok, 2, [])
      ∷ (ok, 1, [])
      ∷ (err_overflow, 1, [])
      ∷ (ok, 2, 101 ∷ 102 ∷ [])
      ∷ (ok, 1, [])
      ∷ (ok, 2, 7 ∷ 9 ∷ [])
      ∷ (ok, 0, [])
      ∷ (ok, 0, [])
      ∷ (ok, 0, [])
      ∷ []
unfolding run write write_loop put_byte read peek peek_loop consume wrap_loop readable writable
    clear
run-wrapped = refl

-- `check_truncation`
truncation :
    (write (init wrapped (some (0 ∷ 0 ∷ 0 ∷ [])) 3 3 1).1 (some (97 ∷ 98 ∷ 99 ∷ 100 ∷ [])) 4).0
    ≡ err_overflow
unfolding init write write_loop put_byte
truncation = refl

rejects :
    ((init wrapped none 3 2 1).0 ≡ err_invalid)
    × ((init wrapped (some (0 ∷ [])) 1 2 1).0 ≡ err_invalid)
    × ((write wrapped none 1).0 ≡ err_invalid)
    × ((write wrapped none 0).0 ≡ ok)
unfolding init write write_loop put_byte
rejects = (refl, refl, refl, refl)

contents-write_example : contents (write wrapped (some (7 ∷ 8 ∷ [])) 2).2 ≡ 101 ∷ 102 ∷ 7 ∷ []
contents-write_example = contents-write (7 ∷ 8 ∷ []) wrapped-IsValid

read_lem_example :
    ((read wrapped false 1).0 ≡ ok)
    × ((read wrapped false 1).1 ≡ 1)
    × ((read wrapped false 1).2 ≡ 101 ∷ [])
    × (contents (read wrapped false 1).3 ≡ 102 ∷ [])
    × IsValid (read wrapped false 1).3
read_lem_example = read_lem 1 wrapped-IsValid

run_refines_example : run wrapped script ≡ Queue.run 3 (101 ∷ 102 ∷ []) script
run_refines_example = run_refines script wrapped-IsValid
