-- ===== src/Dns/Tests.antt =====
-- The messages of the test module of src/dns.rs, and the theorems applied to them.
use ace_tun.Base.{bit_and, ◌≢◌}
use ace_tun.Base.{ℕ, ◌≤◌, List, [], ◌∷◌, ◌++◌, ◌≡◌, refl, some, All, length}
use ace_tun.Text.{Text, codes}
use ace_tun.Addr.{IpAddr, v4}
use ace_tun.Dns.Parse.{parse_dns_answers, parse_name, be16, Answers}
use ace_tun.Dns.Parse.Name.{Returns, parse_name_total}
use ace_tun.Dns.Parse.Answers.{parse_dns_answers_total, parse_dns_answers_named}

-- One question `x.com`, and one answer whose name points to the question.
abbrev header : List ℕ
header = 0x12 ∷ 0x34 ∷ 0x81 ∷ 0x80 ∷ 0 ∷ 1 ∷ 0 ∷ 1 ∷ 0 ∷ 0 ∷ 0 ∷ 0 ∷ []

abbrev question : List ℕ
question = 1 ∷ b'x' ∷ 3 ∷ b'c' ∷ b'o' ∷ b'm' ∷ 0 ∷ 0 ∷ 1 ∷ 0 ∷ 1 ∷ []

abbrev answer : ℕ → List ℕ
answer pointer = 0xc0 ∷ pointer ∷ 0 ∷ 1 ∷ 0 ∷ 1 ∷ 0 ∷ 0 ∷ 1 ∷ 0x2c ∷ 0 ∷ 4 ∷ 1 ∷ 2 ∷ 3 ∷ 4 ∷ []

abbrev message : List ℕ
message = header ++ question ++ answer 12

abbrev x_com : Answers
x_com = (v4 0x01020304, codes "x.com") ∷ []

parses_a_record : parse_dns_answers message ≡ some x_com
unfolding parse_dns_answers
parses_a_record = refl

pointer_loop : parse_dns_answers (header ++ question ++ answer 23) ≡ some []
unfolding parse_dns_answers
pointer_loop = refl

parse_name_total_example : Returns message 23 (parse_name message 23)
parse_name_total_example = parse_name_total message 23

parse_dns_answers_total_example : (a : Answers) × (parse_dns_answers message ≡ some a)
parse_dns_answers_total_example = parse_dns_answers_total message

parse_dns_answers_named_example :
    (bit_and 0x8180 0x8000 ≢ 0)
    × (bit_and 0x8180 0xf ≡ 0)
    × ((qname : Text) × (end : ℕ) × (parse_name message 12 ≡ some (some (qname, end)))
        × All (λ (p : IpAddr × Text). p.1 ≡ qname) x_com
        × (length x_com ≤ 1))
unfolding be16
parse_dns_answers_named_example =
    parse_dns_answers_named message 0x8180 1 x_com refl refl parses_a_record (λ e. cc)
