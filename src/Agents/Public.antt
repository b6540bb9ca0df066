-- ===== src/Agents/Public.antt =====
-- Which addresses an endpoint may have.
use agent_repository.Common.{
  ℕ, ◌==◌, ◌≡◌, Bool, true, not, ◌&&◌, ◌||◌, leb, some, arith, if◌then◌else◌,
}
use agent_repository.Common.Text.{Text, eq_text, is_empty}
use agent_repository.Session.{ok, err, invalid_input}
use agent_repository.Agents.Schema.{Net, Url, v4, dotted, https, is_blocked, validate_endpoint_url}

-- 10/8, 127/8, 172.16/12, 192.168/16 and 169.254/16, by the first two bytes of an address.
unfoldable pub is_private : ℕ → ℕ → Bool
is_private a b =
    a == 10
    || a == 127
    || (a == 172 && leb 16 b && leb b 31)
    || (a == 192 && b == 168)
    || (a == 169 && b == 254)

is_blocked-private :
    (a b c d : ℕ)
    → (leb b 255 && leb c 255 && leb d 255) ≡ true
    → is_blocked (v4 (dotted a b c d)) ≡ is_private a b
unfolding is_blocked is_private
is_blocked-private a b c d small = ground arith

-- For a URL whose host is an IPv4 address, its last three bytes being bytes: it is accepted if
-- the scheme is https, there is a host, and the address is in none of 10/8, 127/8, 172.16/12,
-- 192.168/16 and 169.254/16, and is refused otherwise.
pub validate_endpoint_url-public :
    (net : Net) (url : Text) (parsed : Url) (a b c d : ℕ)
    → net.urlparse url ≡ some parsed
    → net.ip_address parsed.hostname ≡ some (v4 (dotted a b c d))
    → (leb b 255 && leb c 255 && leb d 255) ≡ true
    → validate_endpoint_url net url ≡ (
        if eq_text parsed.scheme https && not (is_empty parsed.hostname) && not (is_private a b)
        then ok tt
        else err invalid_input)
unfolding validate_endpoint_url
validate_endpoint_url-public net url parsed a b c d is_url is_address small =
    ground (arith, is_url, is_address, is_blocked-private a b c d small)
