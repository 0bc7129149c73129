-- ===== src/Main/Config.antt =====
-- src/main.c: what the environment variables make of the libraries' configuration.
pub mod UserAgent
pub mod Timeout
use Prim.Native.Nat.{min}
use pjsocky.Nameservers.{bytes_eq, configure_nameservers}
use pjsocky.Platform.{Platform, UaConfig, LogConfig, MediaConfig}
use pjsocky.VideoFormat.{digits}
use pjsocky.Prelude.{
  ℕ, zero, suc, ◌+◌, ◌-◌, ◌/◌, ◌%◌, ◌^◌, Bool, true, false, not, ◌&&◌, ◌||◌, Option, none, some,
  List, [], ◌∷◌, ◌++◌, map, ltb, leb, ◌==◌, if◌then◌else◌, ℤ, pos, negsuc, take,
}

-- pj_ansi_stricmp(val, lower) == 0 for a text without capitals.
abbrev pub to_lower : ℕ → ℕ
to_lower c = if leb b'A' c && leb c b'Z' then c + 32 else c

abbrev pub on_word : List ℕ
on_word = b'o' ∷ b'n' ∷ []

abbrev pub yes_word : List ℕ
yes_word = b'y' ∷ b'e' ∷ b's' ∷ []

abbrev pub true_word : List ℕ
true_word = b't' ∷ b'r' ∷ b'u' ∷ b'e' ∷ []

unfoldable pub env_flag_is_set : Option (List ℕ) → Bool
env_flag_is_set none = false
env_flag_is_set (some val) =
    bytes_eq val (b'1' ∷ [])
    || (bytes_eq (map to_lower val) on_word
        || (bytes_eq (map to_lower val) yes_word || bytes_eq (map to_lower val) true_word))

-- isspace()
abbrev pub is_space : ℕ → Bool
is_space c = c == b' ' || (leb 9 c && leb c 13)

abbrev pub skip_space : List ℕ → List ℕ
skip_space [] = []
skip_space (c ∷ s) = let rest = skip_space s in if is_space c then rest else c ∷ s

-- What strtoul() and strtol() read in base 10: whether there is a minus sign, and the digits' number.
abbrev pub signed : List ℕ → Bool × ℕ
signed [] = (false, 0)
signed (c ∷ s) =
    if c == b'-'
    then (true, (digits 0 s).0)
    else (false, (if c == b'+' then digits 0 s else digits 0 (c ∷ s)).0)

module _ (ulong_max : ℕ) where
  -- A negated number wraps; one that is too large gives ULONG_MAX with either sign.
  strtoul_of : Bool × ℕ → ℕ
  strtoul_of (negative, n) =
      if ltb ulong_max n
      then ulong_max
      else if negative
      then (ulong_max + 1 - n) % (ulong_max + 1)
      else n

  unfoldable pub strtoul : List ℕ → ℕ
  unfolding strtoul_of
  strtoul s = strtoul_of (signed (skip_space s))

module _ (long_max : ℕ) where
  -- Clamped to LONG_MIN and LONG_MAX.
  atol_of : Bool × ℕ → ℤ
  atol_of (true, zero) = pos 0
  atol_of (true, suc n) = negsuc (min n long_max)
  atol_of (false, n) = pos (min n long_max)

  unfoldable pub atol : List ℕ → ℤ
  unfolding atol_of
  atol s = atol_of (signed (skip_space s))

-- (unsigned)n of an unsigned long
abbrev pub to_unsigned : ℕ → ℕ
to_unsigned n = n % 2 ^ 32

-- PJSOCKY_WRITE_TIMEOUT_DEFAULT_MSEC
abbrev pub write_timeout_default : ℕ
write_timeout_default = 5000

abbrev pub positive_or : ℕ → ℤ → ℕ
positive_or n (pos (suc k)) = to_unsigned (suc k)
positive_or n _ = n

unfoldable pub write_timeout : (long_max : ℕ) → Option (List ℕ) → ℕ
write_timeout long_max none = write_timeout_default
write_timeout long_max (some timeout_str) =
    positive_or write_timeout_default (atol long_max timeout_str)

unfoldable pub log_level : (ulong_max : ℕ) → Option (List ℕ) → LogConfig → LogConfig
log_level ulong_max none log_cfg = log_cfg
log_level ulong_max (some level_str) log_cfg =
    let level = to_unsigned (strtoul ulong_max level_str) in
    record { level = level; console_level = level }

-- sizeof(ua)
abbrev pub ua_size : ℕ
ua_size = 128

-- "pjsocky/", " (PJSUA/v" and the rest of the format
abbrev pub ua_product : List ℕ
ua_product = b'p' ∷ b'j' ∷ b's' ∷ b'o' ∷ b'c' ∷ b'k' ∷ b'y' ∷ b'/' ∷ []

abbrev pub ua_library : List ℕ
ua_library = b' ' ∷ b'(' ∷ b'P' ∷ b'J' ∷ b'S' ∷ b'U' ∷ b'A' ∷ b'/' ∷ b'v' ∷ []

abbrev pub ua_text : (version pj_version sys_info : List ℕ) → List ℕ
ua_text version pj_version sys_info =
    ua_product ++ (version ++ (ua_library ++ (pj_version ++ b' ' ∷ (sys_info ++ b')' ∷ []))))

-- sizeof("pjsocky/") + 1
abbrev pub ua_kept : ℕ
ua_kept = 10

-- The loop from index `i`.
abbrev pub replace_slashes : (i : ℕ) → List ℕ → List ℕ
replace_slashes i [] = []
replace_slashes i (c ∷ s) =
    (if c == b'/' && ltb ua_kept i then b' ' else c) ∷ replace_slashes (suc i) s

unfoldable pub user_agent : (version pj_version sys_info : List ℕ) → List ℕ
user_agent version pj_version sys_info =
    replace_slashes 0 (take (ua_size - 1) (ua_text version pj_version sys_info))

unfoldable pub stun_config : Option (List ℕ) → UaConfig → UaConfig
stun_config none ua_cfg = ua_cfg
stun_config (some []) ua_cfg = ua_cfg
stun_config (some (c ∷ s)) ua_cfg = record ua_cfg {
  stun_srv = (c ∷ s) ∷ [];
  stun_ignore_failure = true;
}

-- The three configurations that pjsua_init() is given.
module _ (p : Platform) where
  unfoldable pub ua_config : UaConfig
  ua_config = stun_config (p.getenv "PJSOCKY_STUN_SRV") (record (p.ua_config_default) {
    nameservers = configure_nameservers (p.getenv "PJSOCKY_NAMESERVER") p.resolv_conf;
    user_agent = user_agent p.version p.pj_version p.sys_info;
  })

  unfoldable pub log_config : LogConfig
  log_config = log_level p.ulong_max (p.getenv "PJSOCKY_LOG_LEVEL") p.log_config_default

  unfoldable pub media_config : MediaConfig
  media_config = record {
    no_vad = not (env_flag_is_set (p.getenv "PJSOCKY_VAD"));
    enable_ice =
        if env_flag_is_set (p.getenv "PJSOCKY_ICE")
        then true
        else p.media_config_default.enable_ice;
  }
