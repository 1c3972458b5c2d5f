-- ===== src/ImageWrite.antt =====
-- installer/gotools/internal/imagewrite/imagewrite.go: streaming an image onto a partition.
-- Reader models the io readers between the network and the writer, Target the device, and
-- Writer the functions of the package; the other children prove what they promise.
pub mod Reader
pub mod Target
pub mod Writer
mod Tests
