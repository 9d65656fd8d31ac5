-- ===== src/Profiles/Formats.antt =====
-- internal/profiles/validate.go: the regular expressions that gate what is pasted into a shell
-- command, each as the deterministic scan that it describes.
use gno_mcp.Prelude.{
  ℕ, Bytes, codes, eqb, is_empty, has_prefix, Bool, true, false, not, ◌&&◌, ◌||◌, [], ◌∷◌, length,
  leb, if◌then◌else◌, ◌==◌, is_digit, all_chars, prefix_of, rest_of, drop,
}

abbrev pub is_lower : ℕ → Bool
is_lower c = leb b'a' c && leb c b'z'

-- [a-z0-9]
abbrev pub is_lower_alnum : ℕ → Bool
is_lower_alnum c = is_lower c || is_digit c

-- [A-Za-z0-9]
abbrev pub is_alnum : ℕ → Bool
is_alnum c = is_lower_alnum c || (leb b'A' c && leb c b'Z')

-- `[0-9]+[a-z]+`: spendLimitRE, SpendLimitValid
unfoldable pub spend_limit_valid : Bytes → Bool
spend_limit_valid s =
    not (is_empty (prefix_of is_digit s))
    && not (is_empty (rest_of is_digit s))
    && all_chars is_lower (rest_of is_digit s)

-- [a-z0-9._-]
abbrev pub is_chain_char : ℕ → Bool
is_chain_char c = is_lower_alnum c || c == b'.' || c == b'_' || c == b'-'

-- the last character passes a test
unfoldable pub ends_in : (ℕ → Bool) → Bytes → Bool
ends_in p [] = false
ends_in p (c ∷ []) = p c
ends_in p (c ∷ d ∷ s) = ends_in p (d ∷ s)

abbrev pub begins_in : (ℕ → Bool) → Bytes → Bool
begins_in p [] = false
begins_in p (c ∷ s) = p c

-- `[a-z0-9]([a-z0-9._-]*[a-z0-9])?`: chainIDFormatRE, and the length gate of ChainIDValid
unfoldable pub chain_id_valid : Bytes → Bool
unfolding ends_in all_chars
chain_id_valid s =
    leb (length s) 64
    && begins_in is_lower_alnum s
    && all_chars is_chain_char s
    && ends_in is_lower_alnum s

-- `[a-z0-9][a-z0-9_-]*`: profileNameRE, ValidProfileName
unfoldable pub valid_profile_name : Bytes → Bool
unfolding all_chars
valid_profile_name s =
    begins_in is_lower_alnum s && all_chars (λ c. is_lower_alnum c || c == b'_' || c == b'-') s

-- [A-Za-z0-9.-]
abbrev pub is_host_char : ℕ → Bool
is_host_char c = is_alnum c || c == b'.' || c == b'-'

-- [A-Za-z0-9._/-]
abbrev pub is_url_char : ℕ → Bool
is_url_char c = is_alnum c || c == b'.' || c == b'_' || c == b'/' || c == b'-'

-- `(/[A-Za-z0-9._/-]*)?`
abbrev pub valid_url_path : Bytes → Bool
valid_url_path [] = true
valid_url_path (c ∷ s) = c == b'/' && all_chars is_url_char s

-- `(:[0-9]+)?` in front of the path
abbrev pub valid_port_path : Bytes → Bool
valid_port_path [] = true
valid_port_path (c ∷ s) =
    if c == b':'
    then not (is_empty (prefix_of is_digit s)) && valid_url_path (rest_of is_digit s)
    else valid_url_path (c ∷ s)

-- `[A-Za-z0-9.-]+` in front of the port
abbrev pub valid_authority : Bytes → Bool
valid_authority s =
    not (is_empty (prefix_of is_host_char s)) && valid_port_path (rest_of is_host_char s)

-- `https?://...`: rpcURLRE, ValidRPCURL
unfoldable pub valid_rpc_url : Bytes → Bool
unfolding has_prefix prefix_of rest_of all_chars
valid_rpc_url s =
    if has_prefix s (codes "https://")
    then valid_authority (drop 8 s)
    else has_prefix s (codes "http://") && valid_authority (drop 7 s)

-- testnetChainNames, IsTestnetChainID
unfoldable pub is_testnet_chain_id : Bytes → Bool
unfolding has_prefix
is_testnet_chain_id id = has_prefix id (codes "test") || has_prefix id (codes "onyx")

-- ChainIDWritable
unfoldable pub chain_id_writable : Bytes → Bool
unfolding is_testnet_chain_id eqb
chain_id_writable id = eqb id (codes "dev") || is_testnet_chain_id id
