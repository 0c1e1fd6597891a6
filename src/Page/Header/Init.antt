-- ===== src/Page/Header/Init.antt =====
-- The page that `init` writes.
use gdbx.Base.{ℕ, ◌+◌, ◌-◌, ◌*◌, ◌%◌, ◌^◌, ◌≤◌, ◌<◌, ◌≡◌, refl, some, ok, arith}
use gdbx.Bytes.{Bytes, word16, word32, word64, write64, write32}
use gdbx.Bytes.Loads.{load8_ok, store64_ok, store32_ok}
use gdbx.Page.Header.{page_header_size, sub16, header, init}

module _ (p : Bytes) (pno flags : ℕ) (fits : page_header_size ≤ p.size) (small : p.size ≤ 65536)
    (pno_ok : pno < 2 ^ 32) (flags_ok : flags < 2 ^ 16) where
  packed : ℕ
  packed = flags * 2 ^ 16 + (p.size - 20) * 2 ^ 48

  written : Bytes
  unfolding packed
  written = record p { at = write32 (write64 (write64 p.at 0 0) 8 packed) 16 pno }

  size-written : written.size ≡ p.size
  unfolding written
  size-written = refl

  word64-written : word64 written.at 0 ≡ 0
  unfolding written
  word64-written = refl

  flags-written : word16 written.at 10 ≡ flags
  unfolding written
  flags-written = omega (arith, flags_ok)

  upper-written : word16 written.at 14 ≡ p.size - 20
  unfolding written
  upper-written = omega (arith, flags_ok, small)

  ksize-written : word16 written.at 8 ≡ 0
  unfolding written
  ksize-written = omega (arith, flags_ok, small)

  lower-written : word16 written.at 12 ≡ 0
  unfolding written
  lower-written = omega (arith, flags_ok, small)

  pgno-written : word32 written.at 16 ≡ pno
  unfolding written
  pgno-written = omega (arith, pno_ok)

  header-written :
      header written
      ≡ some (record {
        txnid = 0;
        dupfix_ksize = 0;
        flags = flags;
        lower = 0;
        upper = p.size - 20;
        page_no = pno;
      })
  unfolding header
  header-written = ground (
    arith, size-written, word64-written, ksize-written, flags-written, lower-written, upper-written,
    pgno-written,
  )

  -- `init` of a slice of at least 20 and at most 64 KB bytes, given the slice's length as the `uint16`
  -- page size (which is 0 for 64 KB), succeeds, and the header that is read back has the given flags
  -- and page number, no entries, and all of the page behind the header free.
  pub header-init :
      (r : Bytes) × (init p pno flags (p.size % 65536) ≡ ok r)
      × (header r
          ≡ some (record {
            txnid = 0;
            dupfix_ksize = 0;
            flags = flags;
            lower = 0;
            upper = p.size - 20;
            page_no = pno;
          }))
  unfolding init packed
  header-init =
      let up : sub16 (p.size % 65536) 20 ≡ p.size - 20 = omega (arith, fits, small) in
      (
        written,
        rw
            (
              load8_ok p 19 (omega (arith, fits)),
              up,
              store64_ok p 0 0 (omega (arith, fits)),
              store64_ok (record p { at = write64 p.at 0 0 }) 8 packed (omega (arith, fits)),
            )
            (rw
              (store32_ok (record p { at = write64 (write64 p.at 0 0) 8 packed }) 16 pno
                (omega (arith, fits)))
              (unfold written in refl)),
        header-written,
      )
