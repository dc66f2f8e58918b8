-- ===== src/Device/Vector.antt =====
-- The call of a device's vector, as the devices make it through `buxn_vm_execute`.
use buxn.Prelude.{ℕ, ◌==◌, if◌then◌else◌, Option, none, some}
use buxn.Vm.State.{Vm, Host, dev_load2}
use buxn.Vm.Exec.{Status, returned, Hook, execute}

-- The machine that a run leaves, if it returns.
abbrev pub returned_vm : {W : Type 0} → Status W → Option (Vm W)
returned_vm (returned vm) = some vm
returned_vm _ = none

module _ {W : Type 0} (host : Host W) (hook : Hook W) (fuel : ℕ) where
  -- `buxn_vm_execute` within a number of rounds; `none` is a run that has not returned by then.
  unfoldable pub exec_vector : Vm W → ℕ → Option (Vm W)
  exec_vector vm pc = returned_vm (execute host hook fuel vm pc)

  -- `buxn_controller_send_event`, `buxn_mouse_update`, `buxn_screen_update` and
  -- `buxn_audio_notify_finished`: the vector at a port, if it is set.
  unfoldable pub call_vector : ℕ → Vm W → Option (Vm W)
  unfolding exec_vector dev_load2
  call_vector port vm =
      let vector_addr = dev_load2 vm port in
      if vector_addr == 0 then some vm else exec_vector vm vector_addr
