-- ===== src/Session/Hints.antt =====
-- core/dbcore/session.go: what is added to the message of a connection that fails.
use db_crawler.Prelude.{Bool, false, ◌||◌, List, [], ◌∷◌, ◌++◌, if◌then◌else◌}
use db_crawler.Text.{Text, Unicode, codes, contains, to_lower}

-- One of the parts occurs in the message.
unfoldable pub mentions : Text → List Prim.Native.String.String → Bool
unfolding contains
mentions msg [] = false
mentions msg (part ∷ parts) = contains msg (codes part) || mentions msg parts

-- The lines of a hint, behind an empty line.
abbrev hint : List Prim.Native.String.String → Text
hint [] = []
hint (part ∷ parts) = codes part ++ hint parts

unfoldable pub hint_for : Text → Text
unfolding mentions
hint_for msg =
    if mentions msg ("operation not permitted" ∷ "permission denied" ∷ [])
    then hint (
        "\n\nThe device refused to open the socket at all, which usually means"
        ∷ " the app is missing network permission rather than anything being wrong"
        ∷ " with the host or your credentials." ∷ [])
    else if mentions msg ("i/o timeout" ∷ "deadline exceeded" ∷ [])
    then hint (
        "\n\nNo reply from the host. Check it is reachable from this network"
        ∷ " and that the port is open to you." ∷ [])
    else if mentions msg ("connection refused" ∷ [])
    then hint (
        "\n\nThe host answered but nothing is listening on that port."
        ∷ " Check the port, and that the server accepts TCP connections." ∷ [])
    else if mentions msg ("no such host" ∷ [])
    then hint ("\n\nThe hostname did not resolve. Check the spelling, or use an IP address." ∷ [])
    else if mentions msg (
        "certificate signed by unknown authority" ∷ "certificate is not trusted"
        ∷ "certificate is valid for" ∷ [])
    then hint (
        "\n\nThe server's certificate could not be verified. If it is self-signed"
        ∷ " — which SQL Server's default certificate is — use Require rather than Verify."
        ∷ " The connection stays encrypted either way." ∷ [])
    else if mentions msg ("negative serial number" ∷ [])
    then hint (
        "\n\nThis is a known quirk of SQL Server's self-signed certificate that the"
        ∷ " app is meant to tolerate. Please report it — the build is missing a setting." ∷ [])
    else if mentions msg ("tls handshake" ∷ "tls:" ∷ [])
    then hint (
        "\n\nThe server was reached but encryption could not be negotiated."
        ∷ " Check whether it accepts encrypted connections, or try a different Encryption setting."
        ∷ [])
    else if mentions msg ("login failed" ∷ "password authentication failed" ∷ [])
    then hint
        ("\n\nThe server was reached — this is a credentials problem, not a network one." ∷ [])
    else []

unfoldable pub connect_hint : ⦃u : Unicode⦄ → Text → Text
unfolding hint_for to_lower
connect_hint message = hint_for (to_lower message)
