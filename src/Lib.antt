-- ===== src/Lib.antt =====
-- The boot and installation tools of the postmarketOS port to the Daylight DC-1.
--
-- The program. The host sends an installation session to the tablet: a text header (wire) and then a
-- raw ext4 image, which is written to the userdata partition (imagewrite). boot/mkboot packs the boot
-- images and lk images that the bootloader reads, and checks them. The boot image's initramfs starts
-- an init (systeminit) that looks for the file system that the installer wrote, mounts it and hands
-- over to it, or stays behind with rescue shells and a watchdog that is petted only under a lease. The
-- superblock ties the parts together: imagewrite holds it back until the digest was right, so that an
-- interrupted installation has none, and the init boots only what has one with the installer's label.
-- On the tablet the session arrives at a server (installd), which reads the header, looks for userdata
-- (partition), writes the image and then writes the note by which the next boot stops in fastboot
-- (rebootfastboot, also a command of its own). An init of its own (installerinit) brings that mode up:
-- the second stage with the server, the display, and the status screen, which shares the panel with
-- the dialogs (ask) that ask for what the host did not answer.
--
-- The files.
-- - Base: lists, Boolean tests and byte strings over the native numbers, Go's (value, error) pairs as
--   Result, little-endian words.
-- - Std: the parts of Go's library that the source calls, written out: ReadString, TrimRight,
--   TrimLeft, TrimSpace, Cut, CutPrefix and Split (Std/Strings), ParseInt and decimal printing
--   (Std/Strconv), base64 decoding (Std/Base64), with what the components need of them.
-- - Std/Ints: Go's int with a sign, for coordinates on the screen.
-- - ImageWrite: installer/gotools/internal/imagewrite/imagewrite.go. Reader is the source behind
--   io.LimitReader, io.TeeReader and io.ReadFull: a list of chunks, an error or the end. Target is the
--   interface of the block device, as a state and operations on it, with hypotheses on it in
--   Target/Contents: what is stored is read back. Writer is Write with copyAt, readBackSHA and scrub;
--   its children hold the lemmas stage by stage and the theorems. The digest is a parameter.
-- - Wire: installer/gotools/internal/wire/wire.go, ParseHeader on the bytes of the session.
-- - Partition: installer/gotools/internal/partition/partition.go, the search for userdata by its GPT
--   name in the files of sysfs, which are a parameter, and the inventory of the names. Unique and
--   Listed hold the theorems.
-- - BootControl: installer/gotools/internal/bootctl/bootctl.go, the A/B control block of the misc
--   partition with its CRC-32, which is shown and never written.
-- - MkBoot: boot/mkboot/main.go. Image is bootHdr, parseBoot, sections and packBoot, Lk is lkWrap,
--   LkCommand cmdLKWrap, Info cmdInfo, Verify cmdVerify, Command cmdPack behind its flags, with the
--   files and gzip as parameters, Legacy the second copy of the command line. Layout, Sections and
--   Header hold the lemmas on what packBoot writes, Verify/RoundTrip and Command/Checked the theorems
--   on the commands.
-- - SystemInit: installer/gotools/internal/systeminit. Decide is decide.go, Ops the interface of
--   ops.go, Rescue, Boot and Handoff are the boot sequence of systeminit.go (spawnHelper, gadget and
--   rescue; findRoot, mountRoot and fsck; boot), Watchdog its helpers, Start its Main. Every call of
--   Ops is an event with its result, and the machine, a parameter, answers each call as it likes, by
--   the log so far: a theorem over all machines covers every order of failures. The other files hold
--   the theorems.
-- - RebootFastboot: installer/gotools/internal/rebootfastboot/rebootfastboot.go. The file itself is
--   ResolveMisc, DisarmBCB and ArmNibble over the tablet's disks and words of memory, Command is Main
--   and rebootToFastboot of installer/gotools/internal/installd/installd.go. In Lk the bootloader,
--   which the repository does not hold, is a parameter with the order of tests that the package
--   documents.
-- - Installd: installer/gotools/internal/installd/installd.go, serve and the loop of Main. It calls
--   the models of Wire, Partition, ImageWrite and RebootFastboot as the code calls those packages. The
--   files below it hold the theorems on a session, from the header to the answer.
-- - InstallerInit: installer/gotools/internal/installerinit. Ops is the interface of ops.go, Gate,
--   Gadget and Boot are gate.go, gadget.go and installerinit.go over it, as in SystemInit; Status is
--   the text and the bar of paint.go, Dialogs the server of dialog.go with the lock of the panel.
--   Facts, Prepared, GateOrder, Order and Screen hold the lemmas and theorems.
-- - Ask: installer/gotools/internal/ask. Layout is layout.go, Keyboard keyboard.go, Touch touch.go,
--   Dialogs ask.go; Choices, Entries, Taps and Scaling hold the theorems.
--
-- Integers. A uint32 is a number below 2^32 and conversions to it keep the remainder; ParseInt has the
-- range of an int64; an int of Go, of 64 bits, which no length here leaves, is a natural number, and
-- where it can be negative, in coordinates and positions, an integer of Std/Ints.
--
-- Loops and fuel. The loop of copyAt gets as many rounds as there are bytes to store, that of
-- readBackSHA as many as the image has bytes, and that of ParseHeader one more than the bytes behind
-- the magic line: each round but the last takes at least one byte. Running out of them is an outcome
-- of its own, `stuck`, never taken for a result. The loop of findRoot counts its seconds down and
-- needs no fuel. The loops of rescue, of the helpers and of the installation init do not end on a
-- device: the numbers `passes` and `rounds`, which stand for any number, bound how often they go round
-- here, and a loop that is cut off ends as `running`, or as `none` in InstallerInit. The dialogs go
-- through the list of the taps that arrive, and the servers through the list of sessions or requests.
--
-- Not modelled. The texts of errors and messages are constructors, without the system's own error
-- texts. Of systeminit: the flag parser, Plan and the system calls of sysOps. Of mkboot: the flag
-- parser and the texts of usage. Of bootctl: Read. Of rebootfastboot: the flag parser and the mapping
-- of /dev/mem. Of installd: the status file, a copy of the lines that are sent, and the wait of
-- rebootGrace. Of installerinit: the system calls of sysOps and the pixels of the screen. Of ask: the
-- drawing (draw.go, fb.go, drm.go), the ioctl calls, the probes and the socket. Not modelled at all:
-- pid1, drm, textfont, debugtools and the dispatch by the applet's name of installer/gotools, which
-- are system calls, pixels or printing, and tools/hwtest. The shell scripts, the C sources, the
-- packages of pmaports and the tools in other languages are outside this development.
mod Base
pub mod Std
pub mod ImageWrite
pub mod Wire
pub mod MkBoot
pub mod SystemInit
pub mod Partition
pub mod BootControl
pub mod RebootFastboot
pub mod Installd
pub mod InstallerInit
pub mod Ask
