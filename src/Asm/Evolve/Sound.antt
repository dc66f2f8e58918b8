-- ===== src/Asm/Evolve/Sound.antt =====
-- src/asm/asm.c: calls that also record the failure with which they end.
use Prim.Native.String.{String}
use buxn.Prelude.{ℕ, ◌≡◌, refl, sym, Bool, true, false, Option, arith, if◌then◌else◌}
use mathlib.Core.Logic.{◌≢◌}
use buxn.Asm.Evolve.{
  caught, Good, Apart, Good-modify, Good-bind, Good-pure, Good-gets, Good-starve, Good-if,
  Good-fail, Good-attempt,
}
use buxn.Asm.Evolve.Lexer.{Good-error_ex, Good-warning}
use buxn.Asm.State.{
  Region, Token, Sym, Asm, Outcome, done, failed, stuck, Act, followed, ◌>>=◌, pure, fail, starve,
  gets, modify, attempt,
}
use buxn.Asm.Report.{report, set_failed, error_ex, warning, put_symbol}

-- Where the call returns false, it has been recorded that the assembly fails.
pub record Sound {A : Type 0} (m : Act A) : Type 0 where
  pub good : Good m
  pub loud : (a : Asm) → (m a).0 ≡ failed → (m a).1.success ≡ false

-- A call that always returns a value.
quiet-Sound : {A : Type 0} (m : Act A) → Good m → ((a : Asm) → (m a).0 ≢ failed) → Sound m
quiet-Sound m g h = record { good = g; loud = λ a e. absurd (h a e) }

pub Sound-modify : (f : Asm → Asm) → Apart f → Sound (modify f)
unfolding modify
Sound-modify f h = quiet-Sound _ (Good-modify f h) (λ a e. ground (arith, e))

module _ {A : Type 0} where
  pub Sound-pure : (x : A) → Sound (pure x)
  unfolding pure
  Sound-pure x = quiet-Sound _ (Good-pure x) (λ a e. ground (arith, e))

  pub Sound-starve : Sound (starve {A = A})
  unfolding starve
  Sound-starve = quiet-Sound _ Good-starve (λ a e. ground (arith, e))

  pub Sound-gets : (f : Asm → A) → Sound (gets f)
  unfolding gets
  Sound-gets f = quiet-Sound _ (Good-gets f) (λ a e. ground (arith, e))

  pub Sound-if : (b : Bool) (m n : Act A) → Sound m → Sound n → Sound (if b then m else n)
  Sound-if true m n p q = p
  Sound-if false m n p q = q

  pub Sound-Good : (m : Act A) → Sound m → Good m
  Sound-Good m s = s.good

  caught-done : (r : Outcome A × Asm) → (caught r).0 ≢ failed
  caught-done (done x, b) e = ground (arith, e)
  caught-done (failed, b) e = ground (arith, e)
  caught-done (stuck, b) e = ground (arith, e)

  pub Sound-attempt : (m : Act A) → Good m → Sound (attempt m)
  unfolding attempt
  Sound-attempt m p = quiet-Sound _ (Good-attempt m p) (λ a. caught-done (m a))

  pub Sound-error_ex :
      (message : String) (region : Region) (related : Option (String × Region))
      → Sound (error_ex {A = A} message region related)
  unfolding error_ex set_failed report ◌>>=◌ modify fail
  Sound-error_ex message region related = record {
    good = Good-error_ex message region related;
    loud = λ a e. refl;
  }

followed-loud :
    {A B : Type 0} (r : Outcome A × Asm) (f : A → Act B)
    → (r.0 ≡ failed → r.1.success ≡ false)
    → ((x : A) → Sound (f x))
    → (followed r f).0 ≡ failed
    → (followed r f).1.success ≡ false
followed-loud (done x, b) f h q e = (q x).loud b e
followed-loud (failed, b) f h q e = h refl
followed-loud (stuck, b) f h q e = absurd (ground (arith, e))

pub Sound-bind :
    {A B : Type 0} (m : Act A) (f : A → Act B) → Sound m → ((x : A) → Sound (f x)) → Sound (m >>= f)
unfolding ◌>>=◌
Sound-bind m f p q = record {
  good = Good-bind m f p.good (λ x. (q x).good);
  loud = λ a. followed-loud (m a) f (p.loud a) q;
}

module _ {A : Type 0} (m : Act A) (p : Sound m) where
  checked-loud :
      (success : Bool) (a : Asm)
      → a.success ≡ success
      → ((if success then m else fail) a).0 ≡ failed
      → ((if success then m else fail) a).1.success ≡ false
  unfolding fail
  checked-loud true a h e = p.loud a e
  checked-loud false a h e = h

  -- A call that fails only where it has been recorded already.
  pub Sound-checked : Sound (gets (λ a. a.success) >>= λ success. if success then m else fail)
  unfolding ◌>>=◌ gets
  Sound-checked = record {
    good = Good-bind _ _ (Good-gets _) (λ b. Good-if b m fail p.good Good-fail);
    loud = λ a. checked-loud a.success a refl;
  }

pub Sound-warning : (token : Token) (message : String) → Sound (warning token message)
unfolding warning report modify
Sound-warning token message = quiet-Sound _ (Good-warning token message) (λ a e. ground (arith, e))

pub Sound-put_symbol : (addr : ℕ) (sym : Sym) → Sound (put_symbol addr sym)
unfolding put_symbol
Sound-put_symbol addr sym = Sound-modify _ λ a. (refl, refl, refl, refl)

pub ruleset sound_rules = (
  Sound-bind, Sound-pure, Sound-starve, Sound-gets, Sound-if, Sound-attempt, Sound-Good,
  Sound-error_ex, Sound-warning, Sound-put_symbol,
)
