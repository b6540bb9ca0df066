-- ===== src/Hosting/Words.antt =====
-- The words of an arcoa.yaml manifest, its defaults (app/services/hosting/manifest.py), and the texts
-- of a deployment (app/services/hosting/deploy.py).
use agent_repository.Common.{[], ◌∷◌}
use agent_repository.Common.Text.{Text}

abbrev pub key_name : Text
key_name = b'n' ∷ b'a' ∷ b'm' ∷ b'e' ∷ []

abbrev pub key_runtime : Text
key_runtime = b'r' ∷ b'u' ∷ b'n' ∷ b't' ∷ b'i' ∷ b'm' ∷ b'e' ∷ []

abbrev pub key_skills : Text
key_skills = b's' ∷ b'k' ∷ b'i' ∷ b'l' ∷ b'l' ∷ b's' ∷ []

abbrev pub key_id : Text
key_id = b'i' ∷ b'd' ∷ []

abbrev pub key_description : Text
key_description = b'd' ∷ b'e' ∷ b's' ∷ b'c' ∷ b'r' ∷ b'i' ∷ b'p' ∷ b't' ∷ b'i' ∷ b'o' ∷ b'n' ∷ []

abbrev pub key_base_price : Text
key_base_price = b'b' ∷ b'a' ∷ b's' ∷ b'e' ∷ b'_' ∷ b'p' ∷ b'r' ∷ b'i' ∷ b'c' ∷ b'e' ∷ []

abbrev pub key_requirements : Text
key_requirements =
    b'r' ∷ b'e' ∷ b'q' ∷ b'u' ∷ b'i' ∷ b'r' ∷ b'e' ∷ b'm' ∷ b'e' ∷ b'n' ∷ b't' ∷ b's' ∷ []

abbrev pub key_env : Text
key_env = b'e' ∷ b'n' ∷ b'v' ∷ []

abbrev pub key_cpu : Text
key_cpu = b'c' ∷ b'p' ∷ b'u' ∷ []

abbrev pub key_memory_mb : Text
key_memory_mb = b'm' ∷ b'e' ∷ b'm' ∷ b'o' ∷ b'r' ∷ b'y' ∷ b'_' ∷ b'm' ∷ b'b' ∷ []

abbrev pub key_entrypoint : Text
key_entrypoint = b'e' ∷ b'n' ∷ b't' ∷ b'r' ∷ b'y' ∷ b'p' ∷ b'o' ∷ b'i' ∷ b'n' ∷ b't' ∷ []

abbrev pub default_price : Text
default_price = b'0' ∷ b'.' ∷ b'0' ∷ b'1' ∷ []

abbrev pub default_cpu : Text
default_cpu = b'0' ∷ b'.' ∷ b'2' ∷ b'5' ∷ []

abbrev pub cpu_half : Text
cpu_half = b'0' ∷ b'.' ∷ b'5' ∷ []

abbrev pub cpu_one : Text
cpu_one = b'1' ∷ []

abbrev pub cpu_two : Text
cpu_two = b'2' ∷ []

abbrev pub default_entrypoint : Text
default_entrypoint = b'h' ∷ b'a' ∷ b'n' ∷ b'd' ∷ b'l' ∷ b'e' ∷ b'r' ∷ b'.' ∷ b'p' ∷ b'y' ∷ []

abbrev pub secret_open : Text
secret_open = b'$' ∷ b'{' ∷ b's' ∷ b'e' ∷ b'c' ∷ b'r' ∷ b'e' ∷ b't' ∷ b's' ∷ b'.' ∷ []

abbrev pub arcoa_yaml : Text
arcoa_yaml = b'a' ∷ b'r' ∷ b'c' ∷ b'o' ∷ b'a' ∷ b'.' ∷ b'y' ∷ b'a' ∷ b'm' ∷ b'l' ∷ []

abbrev pub arcoa_yml : Text
arcoa_yml = b'a' ∷ b'r' ∷ b'c' ∷ b'o' ∷ b'a' ∷ b'.' ∷ b'y' ∷ b'm' ∷ b'l' ∷ []

abbrev pub slash : Text
slash = b'/' ∷ []

abbrev pub dots : Text
dots = b'.' ∷ b'.' ∷ []

abbrev pub us_west1 : Text
us_west1 = b'u' ∷ b's' ∷ b'-' ∷ b'w' ∷ b'e' ∷ b's' ∷ b't' ∷ b'1' ∷ []

abbrev pub building : Text
building =
    b'B' ∷ b'u' ∷ b'i' ∷ b'l' ∷ b'd' ∷ b'i' ∷ b'n' ∷ b'g' ∷ b' ' ∷ b'a' ∷ b'g' ∷ b'e' ∷ b'n' ∷ b't'
    ∷ b' ' ∷ b'c' ∷ b'o' ∷ b'n' ∷ b't' ∷ b'a' ∷ b'i' ∷ b'n' ∷ b'e' ∷ b'r' ∷ b'.' ∷ b'.' ∷ b'.' ∷ 10
    ∷ []

abbrev pub complete : Text
complete =
    b'D' ∷ b'e' ∷ b'p' ∷ b'l' ∷ b'o' ∷ b'y' ∷ b' ' ∷ b'c' ∷ b'o' ∷ b'm' ∷ b'p' ∷ b'l' ∷ b'e' ∷ b't'
    ∷ b'e' ∷ b'.' ∷ 10 ∷ []

abbrev pub error_prefix : Text
error_prefix = 10 ∷ b'E' ∷ b'R' ∷ b'R' ∷ b'O' ∷ b'R' ∷ b':' ∷ b' ' ∷ []

abbrev pub line_end : Text
line_end = 10 ∷ []

abbrev pub agent_id_var : Text
agent_id_var =
    b'A' ∷ b'R' ∷ b'C' ∷ b'O' ∷ b'A' ∷ b'_' ∷ b'A' ∷ b'G' ∷ b'E' ∷ b'N' ∷ b'T' ∷ b'_' ∷ b'I' ∷ b'D'
    ∷ []

abbrev pub api_url_var : Text
api_url_var =
    b'A' ∷ b'R' ∷ b'C' ∷ b'O' ∷ b'A' ∷ b'_' ∷ b'A' ∷ b'P' ∷ b'I' ∷ b'_' ∷ b'U' ∷ b'R' ∷ b'L' ∷ []

abbrev pub private_key_var : Text
private_key_var =
    b'A' ∷ b'R' ∷ b'C' ∷ b'O' ∷ b'A' ∷ b'_' ∷ b'P' ∷ b'R' ∷ b'I' ∷ b'V' ∷ b'A' ∷ b'T' ∷ b'E' ∷ b'_'
    ∷ b'K' ∷ b'E' ∷ b'Y' ∷ []

abbrev pub no_logs : Text
no_logs =
    b'(' ∷ b'n' ∷ b'o' ∷ b' ' ∷ b'l' ∷ b'o' ∷ b'g' ∷ b's' ∷ b' ' ∷ b'a' ∷ b'v' ∷ b'a' ∷ b'i' ∷ b'l'
    ∷ b'a' ∷ b'b' ∷ b'l' ∷ b'e' ∷ b' ' ∷ 8212 ∷ b' ' ∷ b'a' ∷ b'g' ∷ b'e' ∷ b'n' ∷ b't' ∷ b' '
    ∷ b'n' ∷ b'o' ∷ b't' ∷ b' ' ∷ b'r' ∷ b'u' ∷ b'n' ∷ b'n' ∷ b'i' ∷ b'n' ∷ b'g' ∷ b')' ∷ []
