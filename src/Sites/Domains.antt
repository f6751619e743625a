-- ===== src/Sites/Domains.antt =====
-- internal/engine/validate.go: the names that reach file paths, shell commands and proxy rules, as the
-- patterns describe them, and the internal name that is derived from a domain.
use apod.Base.{
  ℕ, ◌-◌, Bool, true, false, not, ◌&&◌, ◌||◌, String, List, [], ◌∷◌, Result, ok, err, invalid, ◌>>◌,
  ◌==◌, nat_eq, string_eq, if◌then◌else◌, length, ltb, leb, codes, split, get_or, has_prefix,
  cut_prefix, Option, none, some,
}
use apod.Base.Names.{is_lower, is_upper, is_digit, all_chars, replace_char, cut}

-- `[a-z0-9]` and `[a-z0-9\-]`.
abbrev pub is_alnum : ℕ → Bool
is_alnum c = is_lower c || is_digit c

abbrev pub is_label_char : ℕ → Bool
is_label_char c = is_alnum c || c == 45

-- `[a-z0-9]([a-z0-9\-]{0,61}[a-z0-9])?`.
unfoldable pub is_label : List ℕ → Bool
unfolding all_chars
is_label cs =
    leb 1 (length cs)
    && leb (length cs) 63
    && all_chars is_label_char cs
    && is_alnum (get_or 45 cs 0)
    && is_alnum (get_or 45 cs (length cs - 1))

unfoldable pub all_labels : List String → Bool
unfolding is_label
all_labels [] = true
all_labels (l ∷ ls) = is_label (codes l) && all_labels ls

-- `ValidateDomain`; the pattern is a label and any labels behind dots.
unfoldable pub validate_domain : String → Result (Unit {0})
unfolding all_labels split
validate_domain domain =
    if domain == "" || ltb 253 (length (codes domain))
    then err (invalid "invalid domain: must be 1-253 characters")
    else if all_labels (split domain 46)
    then ok tt
    else err (invalid "invalid domain %q: use lowercase letters, digits, hyphens and dots")

-- `^[a-z_][a-z0-9_-]{0,31}$`.
unfoldable pub is_owner_name : List ℕ → Bool
unfolding all_chars
is_owner_name [] = false
is_owner_name (c ∷ cs) =
    (is_lower c || c == 95) && all_chars (λ x. is_label_char x || x == 95) cs && leb (length cs) 31

-- `ValidateOwner`.
unfoldable pub validate_owner : String → Result (Unit {0})
unfolding is_owner_name
validate_owner owner =
    if owner == "" || is_owner_name (codes owner)
    then ok tt
    else err (invalid "invalid owner %q: only lowercase letters, digits, '_' and '-' allowed")

-- Two code points side by side, `strings.Contains(s, "..")` and `strings.Contains(s, "::")`.
unfoldable pub has_pair : ℕ → List ℕ → Bool
has_pair c [] = false
has_pair c (x ∷ []) = false
has_pair c (x ∷ y ∷ cs) = (x == c && y == c) || has_pair c (y ∷ cs)

abbrev pub is_word : ℕ → Bool
is_word c = is_lower c || is_upper c || is_digit c

-- `^[A-Za-z0-9][A-Za-z0-9._/-]{0,254}$`.
unfoldable pub is_branch_name : List ℕ → Bool
unfolding all_chars
is_branch_name [] = false
is_branch_name (c ∷ cs) =
    is_word c
    && all_chars (λ x. is_word x || x == 46 || x == 95 || x == 47 || x == 45) cs
    && leb (length cs) 254

-- `ValidateBranch`.
unfoldable pub validate_branch : String → Result (Unit {0})
unfolding is_branch_name has_pair
validate_branch branch =
    if branch == ""
    then ok tt
    else if get_or 0 (codes branch) 0 == 45 || has_pair 46 (codes branch)
    then err (invalid "invalid branch %q")
    else if is_branch_name (codes branch)
    then ok tt
    else err (invalid "invalid branch %q: only letters, digits and ._/- allowed")

-- `[^\s]+`.
abbrev pub no_spaces : List ℕ → Bool
no_spaces cs =
    ltb 0 (length cs)
    && all_chars (λ c. not (c == 9 || c == 10 || c == 12 || c == 13 || c == 32)) cs

-- `^https?://[^\s]+$`.
unfoldable pub is_http_remote : String → Bool
unfolding all_chars has_prefix cut_prefix
is_http_remote s =
    (has_prefix s "http://" && no_spaces (codes (cut_prefix s "http://")))
    || (has_prefix s "https://" && no_spaces (codes (cut_prefix s "https://")))

-- `[A-Za-z0-9._-]+` and `[A-Za-z0-9.-]+`.
abbrev pub is_remote_user : List ℕ → Bool
is_remote_user cs =
    ltb 0 (length cs) && all_chars (λ c. is_word c || c == 46 || c == 95 || c == 45) cs

abbrev pub is_remote_host : List ℕ → Bool
is_remote_host cs = ltb 0 (length cs) && all_chars (λ c. is_word c || c == 46 || c == 45) cs

-- What follows the user of `user@host:path`.
unfoldable pub is_host_and_path : Option (String × String) → Bool
unfolding all_chars
is_host_and_path none = false
is_host_and_path (some (host, path)) = is_remote_host (codes host) && no_spaces (codes path)

unfoldable pub is_user_and_rest : Option (String × String) → Bool
unfolding all_chars is_host_and_path cut
is_user_and_rest none = false
is_user_and_rest (some (user, rest)) = is_remote_user (codes user) && is_host_and_path (cut 58 rest)

-- `^[A-Za-z0-9._-]+@[A-Za-z0-9.-]+:[^\s]+$`.
unfoldable pub is_scp_remote : String → Bool
unfolding cut is_user_and_rest
is_scp_remote s = is_user_and_rest (cut 64 s)

-- `ValidateRepo`.
unfoldable pub validate_repo : String → Result (Unit {0})
unfolding has_prefix has_pair is_http_remote is_scp_remote
validate_repo repo =
    if repo == ""
    then ok tt
    else if has_prefix repo "-"
    then err (invalid "invalid repository URL %q")
    else if has_pair 58 (codes repo)
    then err (invalid "invalid repository URL: transport helpers are not allowed")
    else if is_http_remote repo
        || is_scp_remote repo
        || has_prefix repo "ssh://"
        || has_prefix repo "git://"
    then ok tt
    else err (invalid "invalid repository URL: only http(s) and ssh remotes are allowed")

-- The checks at the head of `CreateSite`.
unfoldable pub validate_opts : String → String → String → String → Result (Unit {0})
unfolding validate_domain validate_owner validate_repo validate_branch
validate_opts domain owner repo branch =
    validate_domain domain
    >> (validate_owner owner >> (validate_repo repo >> validate_branch branch))

-- The name of a site's network, router and compose project: dots as dashes.
unfoldable pub internal_id : String → String
unfolding replace_char
internal_id domain = replace_char 46 "-" domain
