-- ===== src/MkBoot/Image.antt =====
-- The header and the sections of a boot image: parseBoot, sections and packBoot of main.go.
use dc_1_pmos.Base.{
  ℕ, ◌+◌, ◌-◌, ◌%◌, Bool, not, ◌&&◌, ◌||◌, [], ◌∷◌, ◌++◌, ltb, leb, ◌==◌, if◌then◌else◌, Bytes,
  codes, length, take, drop, replicate, bytes_equal, Result, ok, err, ◌>>=◌, le32, word32, u32_mod,
}

pub data ImageError : Type 0 where
  too_small bad_magic short_v4 short_read no_kernel : ImageError
  unsupported_version : ℕ → ImageError
  past_end : ℕ → ℕ → ImageError
  long_cmdline : ℕ → ImageError

abbrev pub boot_magic : Bytes
boot_magic = codes "ANDROID!"

abbrev pub page_size : ℕ
page_size = 4096

unfoldable pub cmdline_size : ℕ
cmdline_size = 1536

abbrev pub header_size_v3 : ℕ
header_size_v3 = 1580

abbrev pub header_size_v4 : ℕ
header_size_v4 = 1584

abbrev pub cmdline_off_v0 : ℕ
cmdline_off_v0 = 64

-- bootHdr; the reserved words are four.
pub record BootHdr : Type 0 where
  pub magic : Bytes
  pub kernel_size : ℕ
  pub ramdisk_size : ℕ
  pub os_version : ℕ
  pub header_size : ℕ
  pub reserved : ℕ × ℕ × ℕ × ℕ
  pub header_version : ℕ
  pub cmdline : Bytes
  pub signature_size : ℕ

-- The bytes that bring `n` to the next page.
unfoldable pub pad : ℕ → ℕ
pad n = if n % page_size == 0 then 0 else page_size - n % page_size

-- The text up to the first NUL.
unfoldable pub cstr : Bytes → Bytes
cstr [] = []
cstr (b ∷ bs) = let rest = cstr bs in if b == 0 then [] else b ∷ rest

-- binary.Read of a uint32, and of an array of bytes
unfoldable pub read_u32 : Bytes → Result ImageError (ℕ × Bytes)
read_u32 (a ∷ b ∷ c ∷ d ∷ rest) = ok (word32 a b c d, rest)
read_u32 _ = err short_read

unfoldable pub read_bytes : ℕ → Bytes → Result ImageError (Bytes × Bytes)
read_bytes n s = if ltb (length s) n then err short_read else ok (take n s, drop n s)

-- the fields that every version has
unfoldable pub read_common : Bytes → Result ImageError (BootHdr × Bytes)
read_common s = do
  (magic, s1) ← read_bytes 8 s
  (kernel, s2) ← read_u32 s1
  (ramdisk, s3) ← read_u32 s2
  (os, s4) ← read_u32 s3
  (size, s5) ← read_u32 s4
  (r0, s6) ← read_u32 s5
  (r1, s7) ← read_u32 s6
  (r2, s8) ← read_u32 s7
  (r3, s9) ← read_u32 s8
  (version, s10) ← read_u32 s9
  (cmdline, s11) ← read_bytes cmdline_size s10
  ok (
    record {
      magic = magic;
      kernel_size = kernel;
      ramdisk_size = ramdisk;
      os_version = os;
      header_size = size;
      reserved = (r0, r1, r2, r3);
      header_version = version;
      cmdline = cmdline;
      signature_size = 0;
    },
    s11,
  )

-- `if h.HeaderVersion >= 4 { … }`
unfoldable pub read_signature_size : ℕ → BootHdr → Bytes → Result ImageError BootHdr
read_signature_size total h rest =
    if ltb h.header_version 4
    then ok h
    else if ltb total header_size_v4
    then err short_v4
    else read_u32 rest >>= λ (n, _). ok (record h { signature_size = n })

unfoldable pub check_version : BootHdr → Result ImageError BootHdr
check_version h =
    if ltb h.header_version 3 then err (unsupported_version h.header_version) else ok h

unfoldable pub parse_boot : Bytes → Result ImageError BootHdr
unfolding check_version
parse_boot image =
    if ltb (length image) header_size_v3
    then err too_small
    else if not (bytes_equal (take 8 image) boot_magic)
    then err bad_magic
    else read_common image >>= λ (h, rest).
        read_signature_size (length image) h rest >>= check_version

-- the closure `take` of sections: a section at `off`, and the offset behind its padding
unfoldable pub take_section : Bytes → ℕ → ℕ → Result ImageError (Bytes × ℕ)
take_section image off n =
    if n == 0
    then ok ([], off)
    else if ltb (length image) (off + n)
    then err (past_end off n)
    else ok (take n (drop off image), off + n + pad (off + n))

unfoldable pub header_end : ℕ → ℕ
header_end version = if ltb version 4 then header_size_v3 else header_size_v4

pub record Parts : Type 0 where
  pub kernel : Bytes
  pub ramdisk : Bytes
  pub signature : Bytes

unfoldable pub sections : BootHdr → Bytes → Result ImageError Parts
sections h image = do
  let start = header_end h.header_version
  (kernel, off) ← take_section image (start + pad start) h.kernel_size
  (ramdisk, off') ← take_section image off h.ramdisk_size
  (signature, _) ← take_section image off' (if ltb h.header_version 4 then 0 else h.signature_size)
  ok (record { kernel = kernel; ramdisk = ramdisk; signature = signature })

pub record PackOpts : Type 0 where
  pub kernel : Bytes
  pub ramdisk : Bytes
  pub signature : Bytes
  pub cmdline : Bytes
  pub os_version : ℕ
  pub header_version : ℕ
  pub legacy_cmdline_offset : Bool

abbrev pub zeros : ℕ → Bytes
zeros n = replicate n 0

-- the struct that packBoot fills in
unfoldable pub header_of : PackOpts → BootHdr
header_of o = record {
  magic = boot_magic;
  kernel_size = length o.kernel % u32_mod;
  ramdisk_size = length o.ramdisk % u32_mod;
  os_version = o.os_version;
  header_size = header_end o.header_version;
  reserved = (0, 0, 0, 0);
  header_version = o.header_version;
  cmdline = o.cmdline ++ zeros (cmdline_size - length o.cmdline);
  signature_size = if ltb o.header_version 4 then 0 else length o.signature % u32_mod;
}

-- the calls of `w`, field by field, in front of what is written next
unfoldable pub write_common : BootHdr → Bytes → Bytes
write_common h rest =
    let (r0, r1, r2, r3) = h.reserved in
    h.magic
    ++ (le32 h.kernel_size
        ++ (le32 h.ramdisk_size
            ++ (le32 h.os_version
                ++ (le32 h.header_size
                    ++ (le32 r0
                        ++ (le32 r1
                            ++ (le32 r2
                                ++ (le32 r3
                                    ++ (le32 h.header_version ++ (h.cmdline ++ rest))))))))))

unfoldable pub write_header : BootHdr → Bytes
write_header h = write_common h (if ltb h.header_version 4 then [] else le32 h.signature_size)

-- `copy(b[off:], s)`, for `s` that fits
unfoldable pub put_at : ℕ → Bytes → Bytes → Bytes
put_at off s b = take off b ++ (s ++ drop (off + length s) b)

-- the optional second copy of the command line
unfoldable pub legacy_copy : PackOpts → Bytes → Bytes
legacy_copy o b =
    if o.legacy_cmdline_offset && ltb (cmdline_off_v0 + length o.cmdline) (length b)
    then put_at cmdline_off_v0 o.cmdline b
    else b

-- `buf.Write(make([]byte, pad(buf.Len())))`
unfoldable pub fill_page : Bytes → Bytes
fill_page b = b ++ zeros (pad (length b))

unfoldable pub append_section : Bytes → Bytes → Bytes
append_section b [] = b
append_section b (c ∷ cs) = fill_page (b ++ (c ∷ cs))

unfoldable pub pack_boot : PackOpts → Result ImageError Bytes
pack_boot o =
    let head = fill_page (legacy_copy o (write_header (header_of o))) in
    let body = append_section (append_section head o.kernel) o.ramdisk in
    let signature = if ltb o.header_version 4 then [] else o.signature in
    if length o.kernel == 0
    then err no_kernel
    else if ltb o.header_version 3 || ltb 4 o.header_version
    then err (unsupported_version o.header_version)
    else if leb cmdline_size (length o.cmdline)
    then err (long_cmdline (length o.cmdline))
    else ok (append_section body signature)
