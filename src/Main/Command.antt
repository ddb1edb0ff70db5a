-- ===== src/Main/Command.antt =====
-- cmd/tbproxy/main.go: `main`, from the arguments of the program to its exit code.
pub mod ExitCodes
pub mod Pages
use ticketbutler_proxy.Common.{ℕ, Bool, ◌||◌, Option, none, some, List, [], ◌∷◌, if◌then◌else◌}
use ticketbutler_proxy.Int.{ℤ}
use ticketbutler_proxy.Float.{Float}
use ticketbutler_proxy.Text.{Text, codes, text_eq, CaseTable}
use ticketbutler_proxy.Errors.{Err, Result, ok, err, ◌>>=◌}
use ticketbutler_proxy.Json.Value.{Json}
use ticketbutler_proxy.Json.Kind.{nil_slice_kind}
use ticketbutler_proxy.Json.Struct.{Field, field, put_struct}
use ticketbutler_proxy.Store.Memory.{Memory}
use ticketbutler_proxy.Store.Gcs.{Cloud}
use ticketbutler_proxy.Ticketbutler.Client.{World}
use ticketbutler_proxy.Aggregate.Tags.{summary_kind, sponsor_kind}
use ticketbutler_proxy.Snapshot.Snapshot.{Codec}
use ticketbutler_proxy.Snapshot.Refresher.{State}
use ticketbutler_proxy.Config.{Environment}
use ticketbutler_proxy.Main.{
  Process, Failure, failed, Built, built, not_built, build, serve, ended, refresh_once, Verified,
  verify,
}

-- What the package flag makes of the arguments of `verify`: it ends the program, or gives the flags that
-- are set.
pub data Flags : Type 0 where
  exits : ℕ → Flags
  given : Option Text → Option Text → Option Text → Flags

-- What a program meets: its environment, the world and the clock of its fetch, the package flag, and
-- what the server does from its start to its end.
pub record Surroundings (F C : Type 0) : Type 0 where
  pub getenv : Environment
  pub parse_duration : Text → Option ℤ
  pub world : World F
  pub now : ℤ
  pub flags : List Text → Flags
  pub listen : Process → State F (Memory × C) → Option Err × State F (Memory × C)

pub data Output : Type 0 where
  nothing : Output
  usage : Output
  version : Output
  printed : Json → Output

pub record Exit : Type 0 where
  pub code : ℕ
  pub output : Output

abbrev pub or_default : Text → Option Text → Text
or_default value none = value
or_default value (some s) = s

-- The end of `main` after a command.
unfoldable pub exit_of : Option Failure → Exit
exit_of none = record { code = 0; output = nothing }
exit_of (some e) = record { code = 1; output = nothing }

abbrev pub with_usage : ℕ → Exit
with_usage code = record { code = code; output = usage }

unfoldable pub verified_fields : {F : Type 0} ⦃float : Float F⦄ → List (Field (Verified F))
verified_fields {F} =
    field (codes "summary") summary_kind (λ (x : Verified F). x.summary)
      (λ a x. record x { summary = a })
    ∷ field (codes "sponsors") (nil_slice_kind sponsor_kind) (λ (x : Verified F). x.sponsors)
        (λ a x. record x { sponsors = a })
    ∷ []

unfoldable pub print_json : Result Json → Exit
unfolding exit_of
print_json (err e) = exit_of (some (failed e))
print_json (ok j) = record { code = 0; output = printed j }

unfoldable pub print_verified : {F : Type 0} ⦃float : Float F⦄ → Built (Verified F) → Exit
unfolding exit_of verified_fields print_json
print_verified (not_built e) = exit_of (some e)
print_verified (built v) = print_json (put_struct verified_fields v)

module _ {F C : Type 0} ⦃float : Float F⦄ ⦃case : CaseTable⦄ (cloud : Cloud C) (codec : Codec F)
    (s : Surroundings F C) where
  -- `serve`, to its end.
  unfoldable pub serve_command : Built Process → C → Option Failure × C
  serve_command (not_built e) c = (some e, c)
  serve_command (built p) c =
      let (e, st) = s.listen p (serve cloud codec p c) in (ended cloud codec e, st.stored.1)

  unfoldable pub verify_command : Flags → Exit
  unfolding print_verified
  verify_command (exits code) = record { code = code; output = nothing }
  verify_command (given file merch_patterns sponsor_pks) = print_verified (
      verify s.world s.getenv (or_default [] file) (or_default (codes "hoodie") merch_patterns)
        (or_default [] sponsor_pks))

  unfoldable pub ended_command : Option Failure × C → Exit × C
  unfolding exit_of
  ended_command (e, c) = (exit_of e, c)

  -- `main`. The first argument is the program's name.
  unfoldable pub run : List Text → C → Exit × C
  unfolding serve_command verify_command ended_command
  run [] c = (with_usage 2, c)
  run (name ∷ []) c = (with_usage 2, c)
  run (name ∷ command ∷ args) c =
      if text_eq command (codes "serve")
      then ended_command (serve_command (build cloud s.getenv s.parse_duration) c)
      else if text_eq command (codes "refresh")
      then ended_command
          (refresh_once cloud codec (build cloud s.getenv s.parse_duration) s.world s.now c)
      else if text_eq command (codes "verify")
      then (verify_command (s.flags args), c)
      else if text_eq command (codes "version")
      then (record { code = 0; output = version }, c)
      else if text_eq command (codes "-h")
          || text_eq command (codes "--help")
          || text_eq command (codes "help")
      then (with_usage 0, c)
      else (with_usage 2, c)
