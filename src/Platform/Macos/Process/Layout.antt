-- ===== src/Platform/Macos/Process/Layout.antt =====
-- src/platform/macos/process.rs: the mirrors of the kernel's two structs, under `repr(C, packed(4))`,
-- and the offsets that the compiler computes for them.
use ace_tun.Base.{
  ℕ, ◌+◌, ◌-◌, ◌*◌, ◌/◌, Option, none, some, List, [], ◌∷◌, ◌≡◌, refl, if◌then◌else◌, min,
}
use ace_tun.Text.{Text, codes, text_eq}
use ace_tun.Platform.Macos.Process.{
  xinpcb_offset_fport, xinpcb_offset_lport, xinpcb_offset_vflag, xinpcb_offset_faddr,
  xinpcb_offset_laddr, xsocket_offset_last_pid,
}

record Field : Type 0 where
  name : Text
  size : ℕ
  align : ℕ

-- `u8`, `u16` or `i16`, `u32` or `i32`, `u64`, and `[u32; 4]`.
abbrev byte : Text → Field
byte n = record { name = n; size = 1; align = 1 }

abbrev half : Text → Field
half n = record { name = n; size = 2; align = 2 }

abbrev word : Text → Field
word n = record { name = n; size = 4; align = 4 }

abbrev double : Text → Field
double n = record { name = n; size = 8; align = 8 }

abbrev four_words : Text → Field
four_words n = record { name = n; size = 16; align = 4 }

-- A field goes to the next multiple of its alignment, which the packing limits to four.
unfoldable aligned : ℕ → Field → ℕ
aligned offset f = (offset + min f.align 4 - 1) / min f.align 4 * min f.align 4

unfoldable offset_from : ℕ → Text → List Field → Option ℕ
unfolding aligned text_eq
offset_from offset name [] = none
offset_from offset name (f ∷ fs) =
    let rest = offset_from (aligned offset f + f.size) name fs in
    if text_eq f.name name then some (aligned offset f) else rest

unfoldable end_from : ℕ → List Field → ℕ
unfolding aligned
end_from offset [] = offset
end_from offset (f ∷ fs) = end_from (aligned offset f + f.size) fs

abbrev offset_of : List Field → Text → Option ℕ
offset_of fs name = offset_from 0 name fs

-- The size is a multiple of the struct's alignment, four.
abbrev size_of : List Field → ℕ
size_of fs = (end_from 0 fs + 3) / 4 * 4

unfoldable xinpcb_n : List Field
xinpcb_n =
    word (codes "xi_len")
    ∷ word (codes "xi_kind")
    ∷ double (codes "xi_inpp")
    ∷ half (codes "inp_fport")
    ∷ half (codes "inp_lport")
    ∷ double (codes "inp_ppcb")
    ∷ double (codes "inp_gencnt")
    ∷ word (codes "inp_flags")
    ∷ word (codes "inp_flow")
    ∷ byte (codes "inp_vflag")
    ∷ byte (codes "inp_ip_ttl")
    ∷ byte (codes "inp_ip_p")
    ∷ four_words (codes "inp_dependfaddr")
    ∷ four_words (codes "inp_dependladdr")
    ∷ byte (codes "inp4_ip_tos")
    ∷ byte (codes "inp6_hlim")
    ∷ word (codes "inp6_cksum")
    ∷ half (codes "inp6_ifindex")
    ∷ half (codes "inp6_hops")
    ∷ word (codes "inp_flowhash")
    ∷ word (codes "inp_flags2")
    ∷ []

unfoldable xsocket_n : List Field
xsocket_n =
    word (codes "xso_len")
    ∷ word (codes "xso_kind")
    ∷ double (codes "xso_so")
    ∷ half (codes "so_type")
    ∷ word (codes "so_options")
    ∷ half (codes "so_linger")
    ∷ half (codes "so_state")
    ∷ double (codes "so_pcb")
    ∷ word (codes "xso_protocol")
    ∷ word (codes "xso_family")
    ∷ half (codes "so_qlen")
    ∷ half (codes "so_incqlen")
    ∷ half (codes "so_qlimit")
    ∷ half (codes "so_timeo")
    ∷ half (codes "so_error")
    ∷ word (codes "so_pgid")
    ∷ word (codes "so_oobmark")
    ∷ word (codes "so_uid")
    ∷ word (codes "so_last_pid")
    ∷ word (codes "so_e_pid")
    ∷ double (codes "so_gencnt")
    ∷ word (codes "so_flags")
    ∷ word (codes "so_flags1")
    ∷ word (codes "so_usecount")
    ∷ word (codes "so_retaincnt")
    ∷ word (codes "xso_filter_flags")
    ∷ []

-- The assertions that the source makes at compile time.
pinned_xinpcb :
    (offset_of xinpcb_n (codes "xi_len") ≡ some 0)
    × (offset_of xinpcb_n (codes "inp_fport") ≡ some xinpcb_offset_fport)
    × (offset_of xinpcb_n (codes "inp_lport") ≡ some xinpcb_offset_lport)
    × (offset_of xinpcb_n (codes "inp_vflag") ≡ some xinpcb_offset_vflag)
    × (offset_of xinpcb_n (codes "inp_dependfaddr") ≡ some xinpcb_offset_faddr)
    × (offset_of xinpcb_n (codes "inp_dependladdr") ≡ some xinpcb_offset_laddr)
    × (size_of xinpcb_n ≡ 100)
unfolding xinpcb_n offset_from end_from
pinned_xinpcb = (refl, refl, refl, refl, refl, refl, refl)

pinned_xsocket :
    (offset_of xsocket_n (codes "xso_len") ≡ some 0)
    × (offset_of xsocket_n (codes "so_last_pid") ≡ some xsocket_offset_last_pid)
    × (size_of xsocket_n ≡ 104)
unfolding xsocket_n offset_from end_from
pinned_xsocket = (refl, refl, refl)
