-- ===== src/S3.antt =====
-- protocols/s3/src: the parts of the S3 client that ask no server.
pub mod Upload
pub mod Parts
pub mod Runs
pub mod Close
pub mod Examples
