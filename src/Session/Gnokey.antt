-- ===== src/Session/Gnokey.antt =====
-- internal/session/gnokey.go: the shell commands that a human pastes to authorize or revoke a session.
pub mod Safety
mod Tests
use gno_mcp.Prelude.{Bytes, codes, Bool, true, false, List, [], ◌∷◌, ◌++◌, if◌then◌else◌}
use gno_mcp.Prelude.Int.{ℤ, pos, ltb_ℤ, ◌+ℤ◌}
use gno_mcp.Profiles.Profile.{Profile}
use gno_mcp.Chain.GasFee.{default_gas_wanted, default_gas_fee_ugnot}
use gno_mcp.Session.Coins.{format_int64}
use gno_mcp.Session.Scope.{Scope}
use gno_mcp.Session.Manager.Operations.{unix}

-- a flag with its argument
abbrev pub Flag : Type 0
Flag = Bytes × Bytes

-- the line of one flag, up to the backslash and the line's end
abbrev pub flag_line : Flag → Bytes
flag_line (name, value) = codes "  --" ++ name ++ (b' ' ∷ value) ++ (b' ' ∷ 92 ∷ 10 ∷ [])

unfoldable pub flag_lines : List Flag → Bytes
flag_lines [] = []
flag_lines (f ∷ fs) = flag_line f ++ flag_lines fs

-- the loop over AllowPaths, and AllowRun
unfoldable pub path_flags : List Bytes → List Flag
path_flags [] = []
path_flags (p ∷ ps) = (codes "allow-paths", codes "vm/exec:" ++ p) ∷ path_flags ps

abbrev pub run_flags : Bool → List Flag
run_flags true = (codes "allow-paths", codes "vm/run") ∷ []
run_flags false = []

-- the text of --gas-fee
abbrev pub gas_fee_text : ℤ → Bytes
gas_fee_text fee =
    format_int64 (if ltb_ℤ (pos 0) fee then fee else default_gas_fee_ugnot) ++ codes "ugnot"

-- the flags that both commands end in
abbrev pub chain_flags : Profile → ℤ → List Flag
chain_flags profile fee =
    (codes "gas-fee", gas_fee_text fee)
    ∷ (codes "gas-wanted", format_int64 default_gas_wanted)
    ∷ (codes "remote", profile.rpc_url)
    ∷ (codes "chainid", profile.chain_id)
    ∷ []

-- the flags of FormatGnokeyCreateCommand, at the time `now` in nanoseconds
unfoldable pub create_flags : Profile → Bytes → Scope → ℤ → ℤ → List Flag
unfolding path_flags
create_flags profile pubkey scope fee now =
    (codes "pubkey", pubkey)
    ∷ (path_flags scope.allow_paths
        ++ run_flags scope.allow_run
        ++ ((codes "spend-limit", scope.spend_limit)
            ∷ (codes "expires-at", format_int64 (unix (now +ℤ scope.expires_in)))
            ∷ chain_flags profile fee))

-- the flags of FormatGnokeyRevokeCommand
unfoldable pub revoke_flags : Profile → Bytes → ℤ → List Flag
revoke_flags profile pubkey fee = (codes "pubkey", pubkey) ∷ chain_flags profile fee

-- a command: its first line, its flags, and its end
abbrev pub command : Bytes → List Flag → Bytes
command verb flags =
    codes "gnokey maketx session "
    ++ verb
    ++ (b' ' ∷ 92 ∷ 10 ∷ [])
    ++ flag_lines flags
    ++ codes "  --broadcast "
    ++ (92 ∷ 10 ∷ [])
    ++ codes "  <your-master-key-name>"

-- FormatGnokeyCreateCommand
unfoldable pub format_gnokey_create_command : Profile → Bytes → Scope → ℤ → ℤ → Bytes
unfolding create_flags flag_lines
format_gnokey_create_command profile pubkey scope fee now =
    command (codes "create") (create_flags profile pubkey scope fee now)

-- FormatGnokeyRevokeCommand
unfoldable pub format_gnokey_revoke_command : Profile → Bytes → ℤ → Bytes
unfolding revoke_flags flag_lines
format_gnokey_revoke_command profile pubkey fee =
    command (codes "revoke") (revoke_flags profile pubkey fee)
