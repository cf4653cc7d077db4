-- ===== src/OrmTag.antt =====
-- contracts/ormtag/: the tags of model fields.
pub mod Text
pub mod Split
pub mod Field
pub mod Bounds
pub mod Printed
pub mod Scanning
pub mod RoundTrip
pub mod Calls
pub mod Tokens
pub mod Grammar
pub mod Accepts
pub mod Sections
pub mod Relations
pub mod Fallback
pub mod SoftDelete
pub mod Trashed
pub mod Ext
