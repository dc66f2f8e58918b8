-- ===== src/Dbg/Wire.antt =====
-- src/dbg/wire.c, include/buxn/dbg/wire.h, include/buxn/dbg/protocol.h: the wire between the
-- debugger's core and a client.
use buxn.Prelude.{false, ◌&&◌, none, true, some, Bool, if◌then◌else◌, Option, ℕ}
use buxn.Dbg.State.{Cmd, Answer}
use buxn.Dbg.Hook.{WireOps}

-- `buxn_dbg_msg_t`. A reply has the command and what the core wrote through its pointers, if it did.
pub data Msg : Type 0 where
  begin_exec : ℕ → Msg
  end_exec : Msg
  begin_break : ℕ → Msg
  end_break paused : Msg
  command_req : Cmd → Msg
  command_rep : Cmd → Option Answer → Msg

-- `buxn_dbg_protocol_msg` on an input or an output stream: a message and `BSERIAL_OK`, or a failure.
pub record Protocol (I O : Type 0) : Type 0 where
  pub read : I → I × Option Msg
  pub write : O → Msg → O × Bool

-- `buxn_dbg_wire_s`; a stream that is NULL is none. `answer` stands for the buffer.
pub record Wire (I O : Type 0) : Type 0 where
  pub input : Option I
  pub output : Option O
  pub should_send_reply : Bool
  pub should_send_pause : Bool
  pub cmd : Cmd
  pub answer : Option Answer

module _ {I O : Type 0} (protocol : Protocol I O) where
  -- A write whose failure closes the output.
  unfoldable pub send : Msg → Wire I O → Wire I O
  send msg wire = elim wire.output [
    | none ↦ wire
    | some o ↦
        (let (o', ok) = protocol.write o msg in
          record wire { output = if ok then some o' else none })
  ]

  -- A write whose failure closes both streams.
  unfoldable pub send_or_close : Msg → Wire I O → Wire I O
  send_or_close msg wire = elim wire.output [
    | none ↦ wire
    | some o ↦
        (let (o', ok) = protocol.write o msg in
          if ok
          then record wire { output = some o' }
          else record wire { output = none; input = none })
  ]

  abbrev pub is_open : Wire I O → Bool
  is_open wire = elim wire.output [ none ↦ false | some _ ↦ true ]

  -- `buxn_dbg_wire_maybe_reply`
  unfoldable pub maybe_reply : Wire I O → Wire I O
  unfolding send_or_close
  maybe_reply wire =
      if is_open wire && wire.should_send_reply
      then record (send_or_close (Msg.command_rep wire.cmd wire.answer) wire) {
        should_send_reply = false;
      }
      else wire

  -- `buxn_dbg_wire_maybe_send_pause`
  unfoldable pub maybe_send_pause : Wire I O → Wire I O
  unfolding send_or_close
  maybe_send_pause wire =
      if is_open wire && wire.should_send_pause
      then record (send_or_close Msg.paused wire) { should_send_pause = false }
      else wire

  -- `buxn_dbg_begin_break`
  unfoldable pub wire_begin_break : Wire I O → ℕ → Wire I O
  unfolding send
  wire_begin_break wire brkp_id =
      if is_open wire
      then send (Msg.begin_break brkp_id) (record wire { should_send_pause = true })
      else wire

  -- What a message that was read means to the core.
  unfoldable pub accept : Option Msg → Wire I O → Wire I O × Cmd
  accept (some (Msg.command_req cmd)) wire =
      (record wire { cmd = cmd; answer = none; should_send_reply = true }, cmd)
  accept _ wire = (record wire { input = none }, Cmd.resume)

  -- The command that is read from the input, or RESUME.
  unfoldable pub read_command : Wire I O → Wire I O × Cmd
  unfolding accept
  read_command wire = elim wire.input [
    | none ↦ (wire, Cmd.resume)
    | some i ↦ (let (i', msg) = protocol.read i in accept msg (record wire { input = some i' }))
  ]

  -- `buxn_dbg_next_command`
  unfoldable pub wire_next_command : Wire I O → Wire I O × Cmd
  unfolding maybe_reply maybe_send_pause read_command
  wire_next_command wire = read_command (maybe_reply (maybe_send_pause wire))

  -- `buxn_dbg_end_break`
  unfoldable pub wire_end_break : Wire I O → Wire I O
  unfolding maybe_reply send
  wire_end_break wire = send Msg.end_break (maybe_reply wire)

  -- The callbacks of the core. It writes its answer to a command through pointers into the buffer.
  abbrev pub wire_ops : WireOps (Wire I O)
  wire_ops = record {
    begin_exec = λ wire addr. send (Msg.begin_exec addr) wire;
    begin_break = wire_begin_break;
    next_command = wire_next_command;
    answer = λ wire a. record wire { answer = some a };
    end_break = wire_end_break;
    end_exec = send Msg.end_exec;
  }
