-- ===== src/Text/Tests.antt =====
-- Runs of the text functions.
use oh_my_lan.Prelude.{◌≡◌, refl, none, some, [], ◌∷◌, pos, negsuc}
use oh_my_lan.Text.{cut, trim_space, fields, atoi, decimal, split_host_port, join_host_port}

cut_at_dot : cut b'.' "id.a.b" ≡ ("id", some "a.b")
unfolding cut
cut_at_dot = refl

trims : trim_space "  a b\n" ≡ "a b"
unfolding trim_space
trims = refl

three_fields : fields " ssh-ed25519  AAAA me " ≡ "ssh-ed25519" ∷ "AAAA" ∷ "me" ∷ []
unfolding fields
three_fields = refl

numbers :
    (atoi "0080" ≡ some (pos 80))
    × (atoi "-3" ≡ some (negsuc 2))
    × (atoi "8a" ≡ none)
    × (decimal 40001 ≡ "40001")
    × (decimal 0 ≡ "0")
unfolding atoi decimal
numbers = (refl, refl, refl, refl, refl)

hosts :
    (split_host_port "a.b:22" ≡ some ("a.b", "22"))
    × (split_host_port "[::1]:22" ≡ some ("::1", "22"))
    × (split_host_port "::1:22" ≡ none)
    × (split_host_port "[::1]" ≡ none)
    × (join_host_port "::1" "22" ≡ "[::1]:22")
unfolding split_host_port join_host_port
hosts = (refl, refl, refl, refl, refl)
