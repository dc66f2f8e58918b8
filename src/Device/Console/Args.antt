-- ===== src/Device/Console/Args.antt =====
-- src/devices/console.c: the arguments arrive as one sequence of typed bytes.
use buxn.Prelude.{
  sym, arith, fun_ext, ℕ, ◌≡◌, refl, ◌∙◌, ap, Option, none, some, List, [], ◌∷◌, ◌++◌, map,
}
use mathlib.Core.Option
use mathlib.Core.List.{append_assoc}
use buxn.Vm.State.{Vm, Host}
use buxn.Vm.Exec.{Hook}
use buxn.Device.Console.{
  Console, console_arg, console_arg_sep, console_end, ◌>>=◌, send_data, send_arg, send_argv,
  send_args,
}

-- What the program is to see: the characters of all arguments in order, each a (type, value), a line
-- feed between two arguments and one at the end.
abbrev pub separated : List (List ℕ) → List (ℕ × ℕ)
separated [] = []
separated (arg ∷ []) = map (λ ch. (console_arg, ch)) arg ++ (console_end, 10) ∷ []
separated (arg ∷ next ∷ rest) =
    map (λ ch. (console_arg, ch)) arg ++ (console_arg_sep, 10) ∷ separated (next ∷ rest)

-- The device with other arguments left.
abbrev pub set_argv : {W : Type 0} → List (List ℕ) → Console × Vm W → Console × Vm W
set_argv argv (device, vm) = (record device { argv = argv }, vm)

module _ {W : Type 0} (host : ℕ → ℕ → Host W) (hook : Hook W) (fuel : ℕ) where
  -- Events delivered in turn, each through a run of the console vector.
  pub deliver : List (ℕ × ℕ) → Console × Vm W → Option (Console × Vm W)
  deliver [] s = some s
  deliver ((type, value) ∷ events) s = send_data host hook fuel type value s >>= deliver events

  bind_assoc :
      (o : Option (Console × Vm W)) (f g : Console × Vm W → Option (Console × Vm W))
      → (o >>= f >>= g) ≡ (o >>= λ s. f s >>= g)
  bind_assoc none f g = refl
  bind_assoc (some s) f g = refl

  deliver-append :
      (xs ys : List (ℕ × ℕ)) (s : Console × Vm W)
      → deliver (xs ++ ys) s ≡ (deliver xs s >>= deliver ys)
  unfolding deliver
  deliver-append [] ys s = refl
  deliver-append ((type, value) ∷ xs) ys s =
      ap (λ f. send_data host hook fuel type value s >>= f) (fun_ext (deliver-append xs ys))
      ∙ sym (bind_assoc (send_data host hook fuel type value s) (deliver xs) (deliver ys))

  send_data-set_argv :
      (type value : ℕ) (argv : List (List ℕ)) (s : Console × Vm W)
      → send_data host hook fuel type value (set_argv argv s)
        ≡ Option.map (set_argv argv) (send_data host hook fuel type value s)
  unfolding send_data
  send_data-set_argv type value argv (device, vm) = ground arith

  map-bind :
      (o : Option (Console × Vm W)) (g : Console × Vm W → Console × Vm W)
      (f : Console × Vm W → Option (Console × Vm W))
      → Option.map g (o >>= f) ≡ (o >>= λ s. Option.map g (f s))
  map-bind none g f = refl
  map-bind (some s) g f = refl

  bind-some : (o : Option (Console × Vm W)) → (o >>= some) ≡ o
  bind-some none = refl
  bind-some (some s) = refl

  bind-some-map :
      (o : Option (Console × Vm W)) (g : Console × Vm W → Console × Vm W)
      → (o >>= λ s. some (g s)) ≡ Option.map g o
  bind-some-map none g = refl
  bind-some-map (some s) g = refl

  bind-set_argv :
      (o : Option (Console × Vm W)) (argv : List (List ℕ)) (events : List (ℕ × ℕ))
      → ((s : Console × Vm W)
          → deliver events (set_argv argv s) ≡ Option.map (set_argv argv) (deliver events s))
      → (Option.map (set_argv argv) o >>= deliver events)
        ≡ Option.map (set_argv argv) (o >>= deliver events)
  bind-set_argv none argv events h = refl
  bind-set_argv (some s) argv events h = h s

  deliver-set_argv :
      (events : List (ℕ × ℕ)) (argv : List (List ℕ)) (s : Console × Vm W)
      → deliver events (set_argv argv s) ≡ Option.map (set_argv argv) (deliver events s)
  unfolding deliver
  deliver-set_argv [] argv s = refl
  deliver-set_argv ((type, value) ∷ events) argv s =
      ap (λ o. o >>= deliver events) (send_data-set_argv type value argv s)
      ∙ bind-set_argv (send_data host hook fuel type value s) argv events
          (deliver-set_argv events argv)

  send_arg-deliver_last :
      (arg : List ℕ) (s : Console × Vm W)
      → send_arg host hook fuel arg [] s ≡ deliver (separated (arg ∷ [])) s
  unfolding send_arg deliver
  send_arg-deliver_last [] s = sym (bind-some (send_data host hook fuel console_end 10 s))
  send_arg-deliver_last (ch ∷ arg) s =
      ap (λ f. send_data host hook fuel console_arg ch s >>= f)
        (fun_ext (send_arg-deliver_last arg))

  send_arg-deliver :
      (arg next : List ℕ) (rest : List (List ℕ)) (s : Console × Vm W)
      → send_arg host hook fuel arg (next ∷ rest) s
        ≡ deliver (map (λ ch. (console_arg, ch)) arg ++ (console_arg_sep, 10) ∷ []) s
  unfolding send_arg deliver
  send_arg-deliver [] next rest s = sym (bind-some (send_data host hook fuel console_arg_sep 10 s))
  send_arg-deliver (ch ∷ arg) next rest s =
      ap (λ f. send_data host hook fuel console_arg ch s >>= f)
        (fun_ext (send_arg-deliver arg next rest))

  map-set_argv :
      (o : Option (Console × Vm W)) (argv : List (List ℕ))
      → Option.map (set_argv []) (Option.map (set_argv argv) o) ≡ Option.map (set_argv []) o
  map-set_argv none argv = refl
  map-set_argv (some s) argv = refl

  send_argv-deliver :
      (arg : List ℕ) (rest : List (List ℕ)) (s : Console × Vm W)
      → send_argv host hook fuel (arg ∷ rest) s
        ≡ Option.map (set_argv []) (deliver (separated (arg ∷ rest)) s)
  unfolding send_argv
  send_argv-deliver arg [] s =
      ap (λ o. o >>= λ s'. some (set_argv [] s')) (send_arg-deliver_last arg s)
      ∙ bind-some-map (deliver (separated (arg ∷ [])) s) (set_argv [])
  send_argv-deliver arg (next ∷ rest) s =
      let first = map (λ ch. (console_arg, ch)) arg ++ (console_arg_sep, 10) ∷ [] in
      let others = separated (next ∷ rest) in
      ap (λ o. o >>= λ s'. send_argv host hook fuel (next ∷ rest) (set_argv (next ∷ rest) s'))
        (send_arg-deliver arg next rest s)
      ∙ ap (λ f. deliver first s >>= f)
          (fun_ext λ s'.
            send_argv-deliver next rest (set_argv (next ∷ rest) s')
            ∙ ap (Option.map (set_argv [])) (deliver-set_argv others (next ∷ rest) s')
            ∙ map-set_argv (deliver others s') (next ∷ rest))
      ∙ sym (map-bind (deliver first s) (set_argv []) (deliver others))
      ∙ ap (Option.map (set_argv [])) (
          sym (deliver-append first others s)
          ∙ ap (λ events. deliver events s)
              (append_assoc (map (λ ch. (console_arg, ch)) arg) ((console_arg_sep, 10) ∷ [])
                others))

  send_argv-given :
      (argv : List (List ℕ)) (device : Console) (vm : Vm W)
      → device.argv ≡ argv
      → send_argv host hook fuel argv (device, vm)
        ≡ Option.map (set_argv []) (deliver (separated argv) (device, vm))
  unfolding send_argv deliver
  send_argv-given [] device vm e = λ i. some (record device { argv = e i }, vm)
  send_argv-given (arg ∷ rest) device vm e = send_argv-deliver arg rest (device, vm)

  -- The program is sent the characters of all arguments in order, a separator between two arguments
  -- and an end mark behind the last, each through one run of the console vector; if every run
  -- returns, no argument is left, and otherwise the call has no outcome either.
  pub send_args-deliver :
      (device : Console) (vm : Vm W)
      → send_args host hook fuel (device, vm)
        ≡ Option.map (set_argv []) (deliver (separated device.argv) (device, vm))
  unfolding send_args
  send_args-deliver device vm = send_argv-given device.argv device vm refl
