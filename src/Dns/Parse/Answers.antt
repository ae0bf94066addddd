-- ===== src/Dns/Parse/Answers.antt =====
-- `parse_dns_answers` (src/dns.rs): it returns for every payload, and what its answers are.
use mathlib.Core.Option
use ace_tun.Base.{
  ℕ, zero, suc, ◌+◌, ◌-◌, ◌*◌, ◌≤◌, ◌<◌, true, false, ◌&&◌, Option, none, some, List, [], ◌∷◌, ◌++◌,
  ◌≡◌, ◌≢◌, ◌⊎◌, inl, inr, refl, if◌then◌else◌, some_inj, sym, ◌∙◌, subst, arith, length,
  get_elem?-of_lt, take, drop, All, All-append, length-append, Bool-cases, bit_and, ==_iff, ltb,
  leb, ◌==◌,
}
use ace_tun.Text.{Text}
use ace_tun.Addr.{IpAddr, v4, v6, from_octets}
use ace_tun.Dns.Parse.{
  slice, be16, parse_name, Answers, skip_questions, read_answer, finish_record, read_record,
  read_answers, read_sections, has_answers, parse_dns_answers,
}
use ace_tun.Dns.Parse.Name.{parse_name_total}

module _ (msg : List ℕ) where
  be16_holds : (i : ℕ) → i + 1 < length msg → (w : ℕ) × (be16 msg i ≡ some w)
  unfolding be16
  be16_holds i h =
      let (hi, e) = get_elem?-of_lt msg i (omega arith) in
      let (lo, f) = get_elem?-of_lt msg (i + 1) h in (hi * 256 + lo, rw (e, f))

  slice_holds : (i n : ℕ) → i + n ≤ length msg → (bytes : List ℕ) × (slice msg i n ≡ some bytes)
  unfolding slice
  slice_holds i n h = (take n (drop i msg), ground arith)

  -- The questions that are left end within the message, or the parser gives up.
  abbrev Skipped : Option (Option ℕ) → Type 0
  Skipped r = (o : Option ℕ) × (r ≡ some o)

  skip_questions_total : (n offset : ℕ) → Skipped (skip_questions n msg offset)
  unfolding skip_questions
  skip_questions_total zero offset = (some offset, refl)
  skip_questions_total (suc n) offset = elim (Bool-cases (leb (length msg) offset)) [
    | inl past ↦ (none, rw (skip_questions, past))
    | inr inside ↦
        let (r, e, _) = parse_name_total msg offset in
        rw (skip_questions, inside, e) (behind r (skip_questions_total n))
  ]
    where
      behind :
          (r : Option (Text × ℕ))
          → ((at : ℕ) → Skipped (skip_questions n msg at))
          → Skipped (elim r [
            | none ↦ some none
            | some (_, end) ↦ elim (ltb (length msg) (end + 4)) [
              | true ↦ some none
              | false ↦ skip_questions n msg (end + 4)
            ]
          ])
      behind none rest = (none, refl)
      behind (some (_, end)) rest = elim (Bool-cases (ltb (length msg) (end + 4))) [
        | inl e ↦ rw e (none, refl)
        | inr e ↦ rw e (rest (end + 4))
      ]

  module _ (qname : Text) where
    -- Answers for the name, so many at most.
    abbrev Found : ℕ → Option Answers → Type 0
    Found n r =
        (a : Answers) × (r ≡ some a) × All (λ (p : IpAddr × Text). p.1 ≡ qname) a × (length a ≤ n)

    read_answer-Found :
        (rtype rclass offset rdlen : ℕ)
        → offset + rdlen ≤ length msg
        → Found 1 (read_answer msg qname rtype rclass offset rdlen)
    unfolding read_answer
    read_answer-Found rtype rclass offset rdlen h = elim (Bool-cases (rclass == 1)) [
      | inr other ↦ rw other ([], refl, tt, omega arith)
      | inl internet ↦ elim (Bool-cases (rtype == 1 && rdlen == 4)) [
        | inl a ↦
            let (b, e) = slice_holds offset 4 (ground arith) in
            rw (internet, a, e) ((v4 (from_octets 0 b), qname) ∷ [], refl, (refl, tt), omega arith)
        | inr not_a ↦ elim (Bool-cases (rtype == 28 && rdlen == 16)) [
          | inl aaaa ↦
              let (b, e) = slice_holds offset 16 (ground arith) in
              rw (internet, not_a, aaaa, e)
                ((v6 (from_octets 0 b), qname) ∷ [], refl, (refl, tt), omega arith)
          | inr neither ↦ rw (internet, not_a, neither) ([], refl, tt, omega arith)
        ]
      ]
    ]

    abbrev Recorded : Option (Answers × ℕ) → Type 0
    Recorded none = Unit {0}
    Recorded (some (a, next)) = All (λ (p : IpAddr × Text). p.1 ≡ qname) a × (length a ≤ 1)

    abbrev Records : Option (Option (Answers × ℕ)) → Type 0
    Records r = (o : Option (Answers × ℕ)) × (r ≡ some o) × Recorded o

    finish_record-Records :
        (offset rtype rclass rdlen : ℕ)
        → Records (finish_record msg qname offset rtype rclass rdlen)
    unfolding finish_record
    finish_record-Records offset rtype rclass rdlen =
        elim (Bool-cases (ltb (length msg) (offset + rdlen))) [
          | inl short ↦ rw short (none, refl, tt)
          | inr fits ↦
              let (a, e, named, few) = read_answer-Found rtype rclass offset rdlen (ground arith) in
              rw (fits, e) (some (a, offset + rdlen), refl, (named, few))
        ]

    read_record-Records : (offset : ℕ) → Records (read_record msg qname offset)
    unfolding read_record
    read_record-Records offset = elim (Bool-cases (ltb (length msg) (offset + 10))) [
      | inl short ↦ rw short (none, refl, tt)
      | inr fits ↦
          let (rtype, e) = be16_holds offset (ground arith) in
          let (rclass, f) = be16_holds (offset + 2) (ground arith) in
          let (rdlen, g) = be16_holds (offset + 8) (ground arith) in
          rw (fits, e, f, g) (finish_record-Records (offset + 10) rtype rclass rdlen)
    ]

    -- What the loop does with a record, given that the later rounds find what they should.
    add_record :
        (n end : ℕ) (o : Option (Answers × ℕ))
        → Recorded o
        → ((at : ℕ) → Found n (read_answers n msg qname at))
        → Found (suc n) (elim o [
          | none ↦ some []
          | some (found, next) ↦ Option.map (λ rest. found ++ rest) (read_answers n msg qname next)
        ])
    add_record n end none _ later = ([], refl, tt, omega arith)
    add_record n end (some (found, next)) (named, few) later =
        let (rest, e, rest_named, rest_few) = later next in
        rw e (
          found ++ rest,
          refl,
          All-append _ found rest named rest_named,
          omega (arith, length-append found rest),
        )

    behind_name :
        (n : ℕ) (r : Option (Text × ℕ))
        → ((at : ℕ) → Found n (read_answers n msg qname at))
        → Found (suc n) (elim r [
          | none ↦ some []
          | some (_, end) ↦ elim (read_record msg qname end) [
            | none ↦ none
            | some none ↦ some []
            | some (some (found, next)) ↦
                Option.map (λ rest. found ++ rest) (read_answers n msg qname next)
          ]
        ])
    behind_name n none later = ([], refl, tt, omega arith)
    behind_name n (some (_, end)) later =
        let (o, e, recorded) = read_record-Records end in rw e (add_record n end o recorded later)

    read_answers-Found : (n offset : ℕ) → Found n (read_answers n msg qname offset)
    unfolding read_answers
    read_answers-Found zero offset = ([], refl, tt, omega arith)
    read_answers-Found (suc n) offset = elim (Bool-cases (leb (length msg) offset)) [
      | inl past ↦ rw (read_answers, past) ([], refl, tt, omega arith)
      | inr inside ↦
          let (r, e, _) = parse_name_total msg offset in
          rw (read_answers, inside, e) (behind_name n r (read_answers-Found n))
    ]

-- What a parse with the count `n` of answers may give: nothing, or answers for
-- the name that was parsed at offset 12.
abbrev NamedAnswers : Option (Option (Text × ℕ)) → ℕ → Answers → Type 0
NamedAnswers first n a =
    (a ≡ [])
    ⊎ ((qname : Text) × (end : ℕ) × (first ≡ some (some (qname, end)))
        × All (λ (p : IpAddr × Text). p.1 ≡ qname) a
        × (length a ≤ n))

abbrev Parses : Option (Option (Text × ℕ)) → ℕ → Option Answers → Type 0
Parses first n r = (a : Answers) × (r ≡ some a) × NamedAnswers first n a

after_questions :
    (msg : List ℕ) (n : ℕ) (qname : Text) (end : ℕ) (o : Option ℕ)
    → Parses
        (some (some (qname, end)))
        n
        (elim o [ none ↦ some [] | some offset ↦ read_answers n msg qname offset ])
after_questions msg n qname end none = ([], refl, inl refl)
after_questions msg n qname end (some offset) =
    let (a, f, named, few) = read_answers-Found msg qname n offset in
    rw f (a, refl, inr (qname, end, refl, named, few))

behind_qname :
    (msg : List ℕ) (qdcount n : ℕ) (r : Option (Text × ℕ))
    → Parses (some r) n (elim r [
      | none ↦ some []
      | some (qname, end) ↦
          if ltb (length msg) (end + 4)
          then some []
          else elim (skip_questions (qdcount - 1) msg (end + 4)) [
            | none ↦ none
            | some none ↦ some []
            | some (some offset) ↦ read_answers n msg qname offset
          ]
    ])
behind_qname msg qdcount n none = ([], refl, inl refl)
behind_qname msg qdcount n (some (qname, end)) = elim (Bool-cases (ltb (length msg) (end + 4))) [
  | inl short ↦ rw short ([], refl, inl refl)
  | inr fits ↦
      let (o, f) = skip_questions_total msg (qdcount - 1) (end + 4) in
      rw (fits, f) (after_questions msg n qname end o)
]

read_sections-Parses :
    (msg : List ℕ) (qdcount n : ℕ) → Parses (parse_name msg 12) n (read_sections msg qdcount n)
unfolding read_sections
read_sections-Parses msg qdcount n =
    let (r, e, _) = parse_name_total msg 12 in rw (read_sections, e) (behind_qname msg qdcount n r)

-- For every payload the parser returns a list of answers: it reads no byte out of range and its
-- loops end.
pub parse_dns_answers_total :
    (payload : List ℕ) → (a : Answers) × (parse_dns_answers payload ≡ some a)
unfolding parse_dns_answers
parse_dns_answers_total payload = elim (Bool-cases (ltb (length payload) 12)) [
  | inl short ↦ ([], rw short)
  | inr long ↦
      let (flags, e) = be16_holds payload 2 (ground arith) in
      let (qdcount, f) = be16_holds payload 4 (ground arith) in
      let (ancount, g) = be16_holds payload 6 (ground arith) in
      rw (long, e, f, g)
        (elim (Bool-cases (has_answers flags ancount)) [
          | inl has ↦
              let (a, h, _) = read_sections-Parses payload qdcount ancount in rw (has, h) (a, refl)
          | inr not ↦ rw not ([], refl)
        ])
]

has_answers-flags :
    (flags ancount : ℕ)
    → has_answers flags ancount ≡ true
    → (bit_and flags 0x8000 ≢ 0) × (bit_and flags 0xf ≡ 0)
unfolding has_answers
has_answers-flags flags ancount h = elim (Bool-cases (bit_and flags 0x8000 == 0)) [
  | inl query ↦ cc (rw query at h)
  | inr response ↦ elim (Bool-cases (bit_and flags 0xf == 0)) [
    | inl success ↦
        (λ e. (let none_set = (==_iff _ _).1 e in cc), (==_iff (bit_and flags 0xf) 0).0 success)
    | inr failure ↦ cc (rw (response, failure) at h)
  ]
]

-- If the parser returns any answer, the header's flags have the bit QR set, of a response, and the
-- response code, their last four bits, is 0; the answers
-- are at most as many as the header announces, and each of them carries the name that `parse_name`
-- reads at offset 12, where the first question begins.
pub parse_dns_answers_named :
    (payload : List ℕ) (flags ancount : ℕ) (a : Answers)
    → be16 payload 2 ≡ some flags
    → be16 payload 6 ≡ some ancount
    → parse_dns_answers payload ≡ some a
    → a ≢ []
    → (bit_and flags 0x8000 ≢ 0)
      × (bit_and flags 0xf ≡ 0)
      × ((qname : Text) × (end : ℕ) × (parse_name payload 12 ≡ some (some (qname, end)))
          × All (λ (p : IpAddr × Text). p.1 ≡ qname) a
          × (length a ≤ ancount))
unfolding parse_dns_answers
parse_dns_answers_named payload flags ancount a e g parsed h =
    elim (Bool-cases (ltb (length payload) 12)) [
      | inl short ↦ absurd (h (sym (some_inj (rw short at parsed))))
      | inr long ↦
          let (qdcount, f) = be16_holds payload 4 (ground arith) in
          let step : (if has_answers flags ancount
                then read_sections payload qdcount ancount
                else some [])
              ≡ some a =
            rw (long, e, f, g) at parsed in
          elim (Bool-cases (has_answers flags ancount)) [
            | inr not ↦ absurd (h (sym (some_inj (rw not at step))))
            | inl has ↦
                let (b, same, named) = read_sections-Parses payload qdcount ancount in
                let equal : b ≡ a = some_inj (sym same ∙ (rw has at step)) in
                let (response, success) = has_answers-flags flags ancount has in
                (
                  response,
                  success,
                  from_named (subst (NamedAnswers (parse_name payload 12) ancount) equal named),
                )
          ]
    ]
  where
    from_named :
        NamedAnswers (parse_name payload 12) ancount a
        → (qname : Text) × (end : ℕ) × (parse_name payload 12 ≡ some (some (qname, end)))
          × All (λ (p : IpAddr × Text). p.1 ≡ qname) a
          × (length a ≤ ancount)
    from_named (inl empty) = absurd (h empty)
    from_named (inr found) = found
