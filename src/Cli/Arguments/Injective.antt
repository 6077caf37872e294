-- ===== src/Cli/Arguments/Injective.antt =====
-- The argument vectors of cli/src/stellar.rs are unambiguous, and the contract id that a deploy
-- prints is one.
use mathlib.Core.List.{Memᴰ}
use Prim.Native.Char.{code}
use Prim.Native.String.{◌++◌ as ◌<>◌}
use text.Mathlib.TextLemmas.{append_cancel_left, append_cancel_right, cons-append}
use safeguard_hooks.Prelude.{
  ℕ, String, ◌≡◌, ◌≢◌, refl, sym, ap, ◌∙◌, true, Option, none, some, List, [], ◌∷◌, find_sound,
  arith,
}
use safeguard_hooks.Cli.Text.{last_lines}
use safeguard_hooks.Cli.Arguments.{
  flags, invoke_args, opt_address, is_stellar_address, is_contract_id, parse_deployed_id,
}

flags_injective : (ps qs : List (String × String)) → flags ps ≡ flags qs → ps ≡ qs
flags_injective [] [] h = refl
flags_injective [] (q ∷ qs) h = cc
flags_injective (p ∷ ps) [] h = cc
flags_injective ((n, v) ∷ ps) ((m, w) ∷ qs) h =
    let flag : "--" <> n ≡ "--" <> m = cc in
    let names : n ≡ m = append_cancel_left "--" n m flag in
    let values : v ≡ w = cc in let rest : ps ≡ qs = flags_injective ps qs cc in cc

-- Two invocations with the same argument vector are the same invocation: the same source, contract,
-- network, function and parameters.
pub invoke_args_injective :
    (s t : Option String) (id jd net met func gunc : String) (ps qs : List (String × String))
    → invoke_args s id net func ps ≡ invoke_args t jd met gunc qs
    → (s ≡ t) × (id ≡ jd) × (net ≡ met) × (func ≡ gunc) × (ps ≡ qs)
unfolding invoke_args
invoke_args_injective none none id jd net met func gunc ps qs h =
    (refl, cc, cc, cc, flags_injective ps qs cc)
invoke_args_injective (some a) (some b) id jd net met func gunc ps qs h =
    (cc, cc, cc, cc, flags_injective ps qs cc)
invoke_args_injective none (some b) id jd net met func gunc ps qs h = cc
invoke_args_injective (some a) none id jd net met func gunc ps qs h = cc

abbrev first_code : String → ℕ
first_code String.[] = 0
first_code (String.◌∷◌ c s) = code c

quoted : (a : String) → "\"" <> a <> "\"" ≡ String.◌∷◌ "\"" (String.[] <> a <> "\"")
quoted a = cons-append "\"" String.[] (a <> "\"")

apart : ◌≢◌ {A = ℕ} 110 34
apart h = omega (arith, h)

-- An optional address is printed so that it can be read back: no address prints as `null`.
opt_address_injective : (a b : Option String) → opt_address a ≡ opt_address b → a ≡ b
unfolding opt_address
opt_address_injective none none h = refl
opt_address_injective (some a) (some b) h =
    ap some (append_cancel_right a b "\"" (append_cancel_left "\"" _ _ h))
opt_address_injective none (some b) h = absurd (apart (ap first_code (h ∙ quoted b)))
opt_address_injective (some a) none h = absurd (apart (ap first_code (sym h ∙ quoted a)))

contract_id_address : (s : String) → is_contract_id s ≡ true → is_stellar_address s ≡ true
unfolding is_stellar_address
contract_id_address s h = ground arith

-- What is taken for the id of a deployed contract is one of the printed lines, trimmed, and has the
-- form of a Stellar address.
pub parse_deployed_id_lem :
    (stdout id : String)
    → parse_deployed_id stdout ≡ some id
    → (is_stellar_address id ≡ true) × Memᴰ id (last_lines stdout)
unfolding parse_deployed_id
parse_deployed_id_lem stdout id h =
    let (holds, at) = find_sound is_contract_id (last_lines stdout) id h in
    (contract_id_address id holds, at)
