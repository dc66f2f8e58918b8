-- ===== src/Dbg/Access.antt =====
-- src/dbg/core.c: the memory that a client writes is the memory that it reads.
use buxn.Prelude.{
  [], ◌∙◌, update, ap, ◌∷◌, u16, ◌≡◌, ◌<◌, ◌≤◌, ◌+◌, length, Bytes, List, ℕ, refl, arith,
}
use buxn.Dbg.Hook.{read_memory, write_memory, run_cmd, Session, WireOps}
use buxn.Dbg.State.{Cmd, Answer}
use buxn.Vm.State.{Host}

write_memory-before :
    (values : List ℕ) (i j addr : ℕ) (memory : Bytes)
    → j < i
    → i + length values ≤ 65536
    → write_memory values i addr memory (u16 (addr + j)) ≡ memory (u16 (addr + j))
unfolding write_memory
write_memory-before [] i j addr memory lt fits = refl
write_memory-before (v ∷ values) i j addr memory lt fits =
    write_memory-before values (i + 1) j addr _ (omega arith) (omega arith) ∙ ground arith

read_memory-write_memory :
    (values : List ℕ) (i addr : ℕ) (memory : Bytes)
    → i + length values ≤ 65536
    → read_memory (length values) i addr (write_memory values i addr memory) ≡ values
unfolding read_memory write_memory
read_memory-write_memory [] i addr memory fits = refl
read_memory-write_memory (v ∷ values) i addr memory fits =
    let memory' = update memory (u16 (addr + i)) v in
    let head = write_memory-before values (i + 1) i addr memory' (omega arith) (omega arith) in
    let tail = read_memory-write_memory values (i + 1) addr memory' (omega arith) in
    rw (head, tail) (ground arith)

module _ {W S : Type 0} (host : Host W) (ops : WireOps S) (pc addr : ℕ) where
  -- Right after a write to memory, a read of as many bytes from the same address answers with the
  -- values that were written, also across the end of the 64 KiB that the commands reach.
  pub mem_read-mem_write :
      (values : List ℕ) (s : Session W S)
      → length values ≤ 65536
      → (run_cmd host ops pc
          (Cmd.mem_read addr (length values))
          (run_cmd host ops pc (Cmd.mem_write addr values) s).1).1.wire
        ≡ ops.answer s.wire (Answer.values_are values)
  unfolding run_cmd
  mem_read-mem_write values s fits =
      ap (λ vs. ops.answer s.wire (Answer.values_are vs))
        (read_memory-write_memory values 0 addr s.vm.memory (omega arith))
