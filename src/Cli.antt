-- ===== src/Cli.antt =====
-- The command line of src/cli.c, `syseba_cli_parse`. Error texts are left out.

pub mod Settings
pub mod Within
pub mod Kept
pub mod Values
pub mod Arguments
pub mod Line
use sy_se_ba.Prelude.{
  ℕ, ◌%◌, ◌^◌, Bool, true, false, ◌&&◌, ◌||◌, not, Option, none, some, List, [], ◌∷◌, ◌==◌, ltb,
  leb, ◌-◌, length, if◌then◌else◌,
}
use sy_se_ba.Prelude.Text.{Text, codes, streq, starts_with, copy_within}
use sy_se_ba.Prelude.Number.{strtoul}
use sy_se_ba.FilePath.{path_max}
use sy_se_ba.Web.Token.{token_max}
use sy_se_ba.Cli.Settings.{
  Language, Reals, Options, cli_command_valid, after_char, Valued, valued, set_option, it,
}

-- What `syseba_cli_parse` returns: 1 after the usage or the version was printed, -1, or 0.
pub data Parsed (D : Type 0) : Type 0 where
  usage : Language → Parsed D
  version : Parsed D
  wrong : Parsed D
  ready : Options D → Parsed D

-- What a round leads to: a return, the next argument, or this option's value in it.
pub data Round (D : Type 0) : Type 0 where
  stop : Parsed D → Round D
  go_on : Bool → Options D → Round D
  want : Valued → Round D

module _ {D : Type 0} (reals : Reals D) where
  -- The options without a value.
  unfoldable pub set_flag : Text → Options D → Option (Options D)
  set_flag argument o =
      if streq argument (codes "--silent")
      then some (record o { silent = true })
      else if streq argument (codes "--web")
      then some (record o { web = true })
      else if streq argument (codes "--web-only")
      then some (record o { web_only = true })
      else if streq argument (codes "--no-web-auth")
      then some (record o { no_web_auth = true })
      else if streq argument (codes "--no-initial-sync")
      then some (record o { no_initial_sync = true })
      else if streq argument (codes "--json")
      then some (record o { output_json = true })
      else if streq argument (codes "--overwrite")
      then some (record o { overwrite = true })
      else if streq argument (codes "--rename")
      then some (record o { rename = true })
      else none

  -- The value behind the equals sign, or else the next argument.
  unfoldable pub valued_option : Valued → Text → Bool → Options D → Round D
  unfolding after_char set_option
  valued_option name argument command_set o = elim (after_char b'=' argument) [
    | none ↦ want name
    | some value ↦ elim (set_option reals name value o) [
      | none ↦ stop wrong
      | some p ↦ go_on command_set p
    ]
  ]

  unfoldable pub parse_option : Text → Bool → Options D → Round D
  unfolding set_flag valued valued_option
  parse_option argument command_set o = elim (set_flag argument o) [
    | some p ↦ go_on command_set p
    | none ↦
        if streq argument (codes "--create-daemon")
        then go_on true (record o { create_daemon = true; command = codes "service-install" })
        else elim (valued argument) [
          | none ↦ stop wrong
          | some name ↦ valued_option name argument command_set o
        ]
  ]

  -- One round of the loop.
  unfoldable pub parse_argument : Text → Bool → Options D → Round D
  unfolding parse_option cli_command_valid
  parse_argument argument command_set o =
      if streq argument (codes "--help") || streq argument (codes "-h")
      then stop (usage o.language)
      else if streq argument (codes "--version") || streq argument (codes "-V")
      then stop version
      else if not (starts_with (codes "-") argument)
      then (if command_set || not (cli_command_valid argument)
          then stop wrong
          else go_on true (record o { command = argument }))
      else parse_option argument command_set o

  unfoldable pub finish_parse : Options D → Parsed D
  finish_parse o = if o.overwrite && o.rename then wrong else ready o

  -- The arguments from here on; an option may wait for its value.
  unfoldable pub parse_loop : List Text → Bool → Option Valued → Options D → Parsed D
  unfolding parse_argument finish_parse set_option
  parse_loop [] command_set none o = finish_parse o
  parse_loop [] command_set (some name) o = wrong
  parse_loop (argument ∷ rest) command_set none o = elim (parse_argument argument command_set o) [
    | stop parsed ↦ parsed
    | go_on set p ↦ parse_loop rest set none p
    | want name ↦ parse_loop rest command_set (some name) o
  ]
  parse_loop (value ∷ rest) command_set (some name) o = elim (set_option reals name value o) [
    | none ↦ wrong
    | some p ↦ parse_loop rest command_set none p
  ]

  -- The arguments without the program's name.
  unfoldable pub cli_parse : List Text → Options D → Parsed D
  unfolding parse_loop
  cli_parse arguments o = parse_loop arguments false none o
