-- ===== src/Proxy/Http/Chunks.antt =====
-- The loop that reads a CONNECT response (src/proxy.rs, `http_connect`): how the bytes are cut into
-- reads does not matter.
use ace_tun.Base.{
  ℕ, ◌≤◌, Bool, true, false, Option, none, some, List, [], ◌∷◌, ◌++◌, ◌≡◌, refl, sym, ap, ◌∙◌,
  arith, length, ltb, is_nil, append-nil, append_assoc, length-append, All, subst, Bool-cases, inl,
  inr, ◌==◌, ==_iff, if◌then◌else◌,
}
use ace_tun.Config.{ProxyConfig}
use ace_tun.Proxy.Target.{Target}
use ace_tun.Proxy.Stream.{IoResult, ok, err, panic, write_failed}
use ace_tun.Proxy.Http.{
  HttpCrates, HttpStream, ends_head, read_head, parse_http_status, http_connect, finish_head,
  check_status,
}

abbrev pub join : List (List ℕ) → List ℕ
join [] = []
join (chunk ∷ chunks) = chunk ++ join chunks

abbrev pub as_reads : List (List ℕ) → List (Option (List ℕ)) → List (Option (List ℕ))
as_reads [] more = more
as_reads (chunk ∷ chunks) more = some chunk ∷ as_reads chunks more

abbrev pub IsFilled : List ℕ → Type 0
IsFilled chunk = is_nil chunk ≡ false

-- No shorter beginning of the head ends like a head.
abbrev pub EndsOnce : List ℕ → Type 0
EndsOnce head =
    (ends_head head ≡ true)
    × ((p : List ℕ) (b : ℕ) (q : List ℕ) → head ≡ p ++ b ∷ q → ends_head p ≡ false)

read_head-chunks :
    (head buf : List ℕ) (chunk : List ℕ) (chunks : List (List ℕ)) (more : List (Option (List ℕ)))
    → EndsOnce head
    → length head ≤ 65536
    → All IsFilled (chunk ∷ chunks)
    → head ≡ buf ++ join (chunk ∷ chunks)
    → read_head buf (as_reads (chunk ∷ chunks) more) ≡ ok (head, more)
unfolding read_head
read_head-chunks head buf chunk [] more (ends, once) short (filled, _) e =
    let whole : head ≡ buf ++ chunk = e ∙ ap (λ (t : List ℕ). buf ++ t) (append-nil chunk) in
    rw (read_head, filled, subst (λ (t : List ℕ). ends_head t ≡ true) whole ends)
      (ap (λ (h : List ℕ). ok (h, more)) (sym whole))
read_head-chunks head buf chunk ([] ∷ chunks) more ends short (filled, (empty, rest)) e = cc
read_head-chunks head buf chunk ((b ∷ next) ∷ chunks) more (ends, once) short (filled, rest) e =
    let cut : head ≡ (buf ++ chunk) ++ (b ∷ next ++ join chunks) =
      e ∙ sym (append_assoc buf chunk (b ∷ next ++ join chunks)) in
    let fits : ltb 65536 (length (buf ++ chunk)) ≡ false =
      ground (arith, ap length cut, length-append (buf ++ chunk) (b ∷ next ++ join chunks)) in
    rw (read_head, filled, once (buf ++ chunk) b (next ++ join chunks) cut, fits)
      (read_head-chunks head (buf ++ chunk) (b ∷ next) chunks more (ends, once) short rest cut)

-- Where the request is written, a response head of at most 65536 bytes that ends with the first
-- empty line in it gives the same outcome however it is cut into reads of at least one byte: the
-- outcome goes by the head's status alone, and the reads behind the head are left. One read must
-- end where the head does: a read that holds the end of the head and more bytes is not covered.
pub http_connect-chunks :
    (lib : HttpCrates) (cfg : ProxyConfig) (dest : Target) (s : HttpStream) (head chunk : List ℕ)
    (chunks : List (List ℕ)) (more : List (Option (List ℕ)))
    → s.takes_write ≡ true
    → EndsOnce head
    → length head ≤ 65536
    → All IsFilled (chunk ∷ chunks)
    → head ≡ join (chunk ∷ chunks)
    → s.reads ≡ as_reads (chunk ∷ chunks) more
    → ((http_connect lib cfg dest s).0 ≡ check_status (parse_http_status head))
      × ((http_connect lib cfg dest s).1.reads ≡ more)
unfolding http_connect finish_head
http_connect-chunks lib cfg dest s head chunk chunks more writes ends short filled e reads =
    rw (writes, reads, read_head-chunks head [] chunk chunks more ends short filled e) (refl, refl)

abbrev Ended : IoResult (List ℕ × List (Option (List ℕ))) → Type 0
Ended (ok (head, more)) = ends_head head ≡ true
Ended (err e) = Unit {0}
Ended panic = Unit {0}

read_head-Ended : (buf : List ℕ) (reads : List (Option (List ℕ))) → Ended (read_head buf reads)
unfolding read_head
read_head-Ended buf [] = tt
read_head-Ended buf (none ∷ more) = tt
read_head-Ended buf (some chunk ∷ more) = elim (Bool-cases (is_nil chunk)) [
  | inl empty ↦ rw (read_head, empty) tt
  | inr filled ↦ elim (Bool-cases (ends_head (buf ++ chunk))) [
    | inl ends ↦ rw (read_head, filled, ends) ends
    | inr not ↦ elim (Bool-cases (ltb 65536 (length (buf ++ chunk)))) [
      | inl large ↦ rw (read_head, filled, not, large) tt
      | inr small ↦ rw (read_head, filled, not, small) (read_head-Ended (buf ++ chunk) more)
    ]
  ]
]

check_status_ok : (o : Option ℕ) → check_status o ≡ ok tt → o ≡ some 200
unfolding check_status
check_status_ok none h = cc
check_status_ok (some status) h = elim (Bool-cases (status == 200)) [
  | inl same ↦ ap some ((==_iff _ _).0 same)
  | inr other ↦ cc (rw other at h)
]

head_status :
    (s : HttpStream) (r : IoResult (List ℕ × List (Option (List ℕ))))
    → Ended r
    → (finish_head s r).0 ≡ ok tt
    → (head : List ℕ) × (ends_head head ≡ true) × (parse_http_status head ≡ some 200)
unfolding finish_head
head_status s (ok (head, more)) ends done =
    (head, ends, check_status_ok (parse_http_status head) done)
head_status s (err e) ends done = cc
head_status s panic ends done = cc

-- The tunnel is opened only behind a head that ends with an empty line and has the status 200.
http_connect-status :
    (lib : HttpCrates) (cfg : ProxyConfig) (dest : Target) (s : HttpStream)
    → (http_connect lib cfg dest s).0 ≡ ok tt
    → (head : List ℕ) × (ends_head head ≡ true) × (parse_http_status head ≡ some 200)
unfolding http_connect finish_head
http_connect-status lib cfg dest s done = written s.takes_write _ done
  where
    written :
        (taken : Bool) (asked : HttpStream)
        → (if taken then finish_head asked (read_head [] s.reads) else (err write_failed, s)).0
          ≡ ok tt
        → (head : List ℕ) × (ends_head head ≡ true) × (parse_http_status head ≡ some 200)
    written true asked done =
        head_status asked (read_head [] s.reads) (read_head-Ended [] s.reads) done
    written false asked done = cc
